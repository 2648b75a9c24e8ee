-- ===== src/Node/Moves/Loop.antt =====
-- raftify/src/raft_node/mod.rs: the handlers of requests, `on_ready` and the loop. Only a proposal
-- and a change of the membership keep a sender.
use riteraft_ng.Prelude.{ℕ, Bool, true, not, Option, none, some, List, [], ◌∷◌, is_empty}
use riteraft_ng.Outcome.{Outcome, ok, err, panic}
use riteraft_ng.Exec.{◌>>◌}
use riteraft_ng.HashMap.{HashMap}
use riteraft_ng.Net.{SocketAddr, Addr, socket}
use riteraft_ng.Peers.{InitialRole}
use riteraft_ng.Proto.{Entry, HardState, Message, Snapshot}
use riteraft_ng.Node.Messages
use riteraft_ng.Node.Messages.{
  ClusterJoinTicket, LocalRequestMsg, ServerRequestMsg, SelfMessage, ResponseSender,
  ResponseMessage, local, server, local_message, server_message,
}
use riteraft_ng.Node.State.{Env, RaftNodeCore, Ready, LightReady, send}
use riteraft_ng.Node.Requests
use riteraft_ng.Node.Dispatch
use riteraft_ng.Node.Loop
use riteraft_ng.Node.Loop.{Event, from_self, from_server, from_local, nothing}
use riteraft_ng.Node.Moves.{
  Moves, Basic, Machine, bind-Moves, same-Moves, on_store-Moves, on_fsm-Moves, change_raft-Moves,
  send_local-Moves, send_server-Moves, if-Moves, when-Moves,
}
use riteraft_ng.Node.Moves.Commit.{on_peers-Moves, handle_committed_entries-Moves}

module _ {F S R : Type 0} {May : F → F → Type 0}
    {Rel : RaftNodeCore F S R → Bool → RaftNodeCore F S R → Type 0} (b : Basic May Rel)
    (env : Env F S R) where
  send_messages-Moves : (ms : List Message) → Moves Rel (Loop.send_messages env ms)
  send_messages-Moves ms = record { at = λ s. b.spawn s ms }

  append_entries-Moves : (es : List Entry) → Moves Rel (Loop.append_entries env es)
  append_entries-Moves [] = same-Moves b _
  append_entries-Moves (e ∷ es) = on_store-Moves b _

  persist_hard_state-Moves : (h : Option HardState) → Moves Rel (Loop.persist_hard_state env h)
  persist_hard_state-Moves none = same-Moves b _
  persist_hard_state-Moves (some h) = on_store-Moves b _

  pub persist_commit-Moves : (c : Option ℕ) → Moves Rel (Loop.persist_commit env c)
  persist_commit-Moves none = same-Moves b _
  persist_commit-Moves (some c) = on_store-Moves b _

  -- What a `Ready` asks for after its committed entries, and a `LightReady` before them.
  pub after_entries-Moves :
      (r : Ready)
      → Moves Rel (
          Loop.append_entries env r.entries
          >> (Loop.persist_hard_state env r.hs >> Loop.send_messages env r.persisted_messages))
  after_entries-Moves r = bind-Moves b _ _ (append_entries-Moves r.entries) λ _.
      bind-Moves b _ _ (persist_hard_state-Moves r.hs) λ _. send_messages-Moves r.persisted_messages

module _ {F S R : Type 0} {May : F → F → Type 0}
    {Rel : RaftNodeCore F S R → Bool → RaftNodeCore F S R → Type 0} (b : Basic May Rel)
    (env : Env F S R) (snap : (f : F) → May f (env.fsm.snapshot f).1) where
  pub send-Moves : (x : ResponseSender) (m : ResponseMessage F S R) → Moves Rel (send x m)
  send-Moves (local tx) (local_message m) = send_local-Moves b tx m
  send-Moves (local tx) (server_message m) = same-Moves b _
  send-Moves (server tx) (server_message m) = send_server-Moves b tx m
  send-Moves (server tx) (local_message m) = same-Moves b _

  pub add_peer-Moves :
      (id : ℕ) (a : Addr) (role : Option InitialRole) → Moves Rel (Requests.add_peer env id a role)
  unfolding Requests.add_peer
  add_peer-Moves id a role =
      bind-Moves b _ _ (on_peers-Moves b env snap _) λ _. on_peers-Moves b env snap _

  pub add_peers-Moves : (m : HashMap SocketAddr) → Moves Rel (Requests.add_peers env m)
  unfolding Requests.add_peers
  add_peers-Moves [] = same-Moves b _
  add_peers-Moves ((id, a) ∷ m) =
      bind-Moves b _ _ (add_peer-Moves id (socket a) none) λ _. add_peers-Moves m

  pub handle_join-Moves : (ts : List ClusterJoinTicket) → Moves Rel (Requests.handle_join env ts)
  unfolding Requests.handle_join
  handle_join-Moves [] = same-Moves b _
  handle_join-Moves (t ∷ ts) = bind-Moves b _ _ (same-Moves b _) λ _.
      bind-Moves b _ _ (same-Moves b _) λ _. bind-Moves b _ _ (same-Moves b _) λ _.
        bind-Moves b _ _ (same-Moves b _) λ _. bind-Moves b _ _ (same-Moves b _) λ _. same-Moves b _

  after_step-Moves : (r : Outcome (Unit {0})) → Moves Rel (Dispatch.after_step env r)
  after_step-Moves (ok u) = same-Moves b _
  after_step-Moves (err e) = same-Moves b _
  after_step-Moves panic = same-Moves b _

  pub step-Moves : (m : Message) → Moves Rel (Dispatch.step env m)
  step-Moves m = record {
    at = λ s.
        let (r, t) = env.raft.step m s.store s.raw_node in
        b.trans s (record s { raw_node = t }) _ _ (b.world s t s.store s.peers true)
          ((after_step-Moves r).at (record s { raw_node = t }));
  }

  pub handle_self_message-Moves : (m : SelfMessage) → Moves Rel (Dispatch.handle_self_message env m)
  unfolding Dispatch.handle_self_message
  handle_self_message-Moves (Messages.SelfMessage.report_unreachable id) = change_raft-Moves b _

module _ {F S R : Type 0} {May : F → F → Type 0}
    {Rel : RaftNodeCore F S R → Bool → RaftNodeCore F S R → Type 0} (b : Basic May Rel)
    (env : Env F S R) (k : Machine env.fsm May) where
  restore_snapshot-Moves : (x : Snapshot) → Moves Rel (Loop.restore_snapshot env x)
  restore_snapshot-Moves x =
      bind-Moves b _ _
        (when-Moves b (not (is_empty x.data_)) (on_fsm-Moves b _ (k.restore x.data_)))
        λ _. on_store-Moves b _

  handle_ready-Moves : (r : Ready) → Moves Rel (Loop.handle_ready env r)
  unfolding Loop.handle_ready
  handle_ready-Moves r = bind-Moves b _ _ (send_messages-Moves b env r.messages) λ _.
      bind-Moves b _ _
        (when-Moves b (not (env.raft.is_default r.snapshot)) (restore_snapshot-Moves r.snapshot))
        λ _.
          bind-Moves b _ _ (handle_committed_entries-Moves b env k r.committed_entries)
            λ _. after_entries-Moves b env r

  handle_light_ready-Moves : (r : LightReady) → Moves Rel (Loop.handle_light_ready env r)
  unfolding Loop.handle_light_ready
  handle_light_ready-Moves r = bind-Moves b _ _ (persist_commit-Moves b env r.commit_index) λ _.
      bind-Moves b _ _ (send_messages-Moves b env r.messages)
        λ _. handle_committed_entries-Moves b env k r.committed_entries

  pub on_ready-Moves : Moves Rel (Loop.on_ready env)
  unfolding Loop.on_ready
  on_ready-Moves =
      if-Moves (λ s. not (env.raft.has_ready s.store s.raw_node)) _ _ (same-Moves b (λ _. ok tt))
        (bind-Moves b _ _ (record { at = λ s. b.world s _ s.store s.peers true })
          λ r. bind-Moves b _ _ (handle_ready-Moves r) λ _.
            bind-Moves b _ _ (record { at = λ s. b.world s _ s.store s.peers true })
              λ l. bind-Moves b _ _ (handle_light_ready-Moves l) λ _. change_raft-Moves b _)
