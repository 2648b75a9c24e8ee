-- ===== src/Node/Moves/Turn.antt =====
-- raftify/src/raft_node/mod.rs: a turn of the loop respects the budget of one kept sender.
use riteraft_ng.Prelude.{ℕ, ◌+◌, ◌-◌, String, Bool, true, false, not, ltb, ◌==◌, if◌then◌else◌}
use riteraft_ng.Outcome.{Outcome, ok, err, panic, is_ok}
use riteraft_ng.Exec.{Exec, continue, ◌>>=◌}
use riteraft_ng.Proto.{Bytes, ConfChangeV2}
use riteraft_ng.Node.Messages.{
  LocalRequestMsg, ServerRequestMsg, ResponseSender, is_leader, get_id, get_leader_id, get_peers,
  add_peer, add_peers, debug_node, get_state_machine, get_storage, get_cluster_size, quit, campaign,
  leave, get_raw_node, demote, transfer_leader, make_snapshot, propose, change_config, send_message,
  join_cluster, leave_joint, request_id, create_snapshot, set_peers,
}
use riteraft_ng.Node.State
use riteraft_ng.Node.State.{Env, RaftNodeCore}
use riteraft_ng.Node.Requests
use riteraft_ng.Node.Dispatch
use riteraft_ng.Node.Loop
use riteraft_ng.Node.Loop.{Event, from_self, from_server, from_local, nothing, Running}
use riteraft_ng.Node.Moves.{
  Moves, Budget, Machine, bind-Moves, same-Moves, on_raft-Moves, change_raft-Moves,
  send_local-Moves, send_server-Moves, if-Moves, weaken-Moves, before-Moves, after-Moves,
}
use riteraft_ng.Node.Moves.Commit.{make_snapshot-Moves}
use riteraft_ng.Node.Moves.Loop.{
  send-Moves, add_peer-Moves, add_peers-Moves, handle_join-Moves, step-Moves,
  handle_self_message-Moves, on_ready-Moves,
}

module _ {F S R : Type 0} {May : F → F → Type 0}
    {R0 R1 : RaftNodeCore F S R → Bool → RaftNodeCore F S R → Type 0} (g : Budget May R0 R1)
    (env : Env F S R) (snap : (f : F) → May f (env.fsm.snapshot f).1) where
  keep_sender-Moves : (x : ResponseSender) → Moves R1 (Requests.keep_sender env x)
  unfolding Requests.keep_sender
  keep_sender-Moves x = record { at = λ s. g.keep s x }

  handle_propose_request-Moves :
      (p : Bytes) (x : ResponseSender) → Moves R1 (Requests.handle_propose_request env p x)
  unfolding Requests.handle_propose_request
  handle_propose_request-Moves p x =
      if-Moves (λ s. not (State.is_leader env s)) _ _
        (weaken-Moves g (
          if-Moves (λ s. State.get_leader_id env s == 0) _ _ (same-Moves g.basic (λ _. ok tt))
            (record {
              at = λ s.
                  (bind-Moves g.basic _ _ (same-Moves g.basic _)
                      λ a. send-Moves g.basic env snap x _).at
                    s;
            })))
        (after-Moves g _ _ (keep_sender-Moves x) λ seq. on_raft-Moves g.basic _)

  handle_confchange_request-Moves :
      (c : ConfChangeV2) (x : ResponseSender)
      → Moves R1 (Requests.handle_confchange_request env c x)
  unfolding Requests.handle_confchange_request
  handle_confchange_request-Moves c x =
      if-Moves (λ s. env.raft.has_pending_conf s.raw_node) _ _
        (weaken-Moves g (same-Moves g.basic (λ _. ok tt)))
        (if-Moves (λ s. not (State.is_leader env s)) _ _
          (weaken-Moves g (
            if-Moves (λ s. State.get_leader_id env s == 0) _ _ (same-Moves g.basic (λ _. ok tt))
              (record {
                at = λ s.
                    (bind-Moves g.basic _ _ (same-Moves g.basic _)
                        λ a. send-Moves g.basic env snap x _).at
                      s;
              })))
          (after-Moves g _ _ (keep_sender-Moves x) λ seq. on_raft-Moves g.basic _))

  handle_local_request_msg-Moves :
      (m : LocalRequestMsg) → Moves R1 (Dispatch.handle_local_request_msg env m)
  unfolding Dispatch.handle_local_request_msg
  handle_local_request_msg-Moves (is_leader tx) =
      weaken-Moves g (record { at = λ s. (send_local-Moves g.basic tx _).at s })
  handle_local_request_msg-Moves (get_id tx) =
      weaken-Moves g (record { at = λ s. (send_local-Moves g.basic tx _).at s })
  handle_local_request_msg-Moves (get_leader_id tx) =
      weaken-Moves g (record { at = λ s. (send_local-Moves g.basic tx _).at s })
  handle_local_request_msg-Moves (get_peers tx) =
      weaken-Moves g (record { at = λ s. (send_local-Moves g.basic tx _).at s })
  handle_local_request_msg-Moves (add_peer id a role tx) = weaken-Moves g (
      bind-Moves g.basic _ _ (add_peer-Moves g.basic env snap id _ role)
        λ _. send_local-Moves g.basic tx _)
  handle_local_request_msg-Moves (add_peers ps tx) = weaken-Moves g (
      bind-Moves g.basic _ _ (add_peers-Moves g.basic env snap ps)
        λ _. send_local-Moves g.basic tx _)
  handle_local_request_msg-Moves (debug_node tx) =
      weaken-Moves g
        (bind-Moves g.basic _ _ (same-Moves g.basic _) λ _. send_local-Moves g.basic tx _)
  handle_local_request_msg-Moves (get_state_machine tx) =
      weaken-Moves g (record { at = λ s. (send_local-Moves g.basic tx _).at s })
  handle_local_request_msg-Moves (get_storage tx) =
      weaken-Moves g (record { at = λ s. (send_local-Moves g.basic tx _).at s })
  handle_local_request_msg-Moves (get_cluster_size tx) =
      weaken-Moves g (record { at = λ s. (send_local-Moves g.basic tx _).at s })
  handle_local_request_msg-Moves (get_raw_node tx) =
      weaken-Moves g (record { at = λ s. (send_local-Moves g.basic tx _).at s })
  handle_local_request_msg-Moves (quit tx) = weaken-Moves g (record {
    at = λ s.
        g.basic.trans s (record s { should_exit = true }) _ _ (g.basic.exit s)
          ((send_local-Moves g.basic tx _).at (record s { should_exit = true }));
  })
  handle_local_request_msg-Moves (campaign tx) =
      weaken-Moves g
        (bind-Moves g.basic _ _ (on_raft-Moves g.basic _) λ _. send_local-Moves g.basic tx _)
  handle_local_request_msg-Moves (demote term id tx) =
      weaken-Moves g
        (bind-Moves g.basic _ _ (change_raft-Moves g.basic _) λ _. send_local-Moves g.basic tx _)
  handle_local_request_msg-Moves (transfer_leader id tx) =
      weaken-Moves g
        (bind-Moves g.basic _ _ (change_raft-Moves g.basic _) λ _. send_local-Moves g.basic tx _)
  handle_local_request_msg-Moves (leave tx) = record {
    at = λ s. (handle_confchange_request-Moves _ _).at s;
  }
  handle_local_request_msg-Moves (make_snapshot i t tx) = weaken-Moves g (
      bind-Moves g.basic _ _ (make_snapshot-Moves g.basic env snap i t)
        λ _. send_local-Moves g.basic tx _)
  handle_local_request_msg-Moves (propose p tx) = handle_propose_request-Moves p _
  handle_local_request_msg-Moves (change_config c tx) =
      before-Moves g _ _ (same-Moves g.basic _) λ change. handle_confchange_request-Moves change _
  handle_local_request_msg-Moves (send_message m tx) =
      weaken-Moves g
        (bind-Moves g.basic _ _ (step-Moves g.basic env snap m) λ _. send_local-Moves g.basic tx _)
  handle_local_request_msg-Moves (join_cluster ts tx) = weaken-Moves g (
      bind-Moves g.basic _ _ (handle_join-Moves g.basic env snap ts)
        λ _. send_local-Moves g.basic tx _)
  handle_local_request_msg-Moves leave_joint = weaken-Moves g (on_raft-Moves g.basic _)

  handle_request_id-Moves : (a : String) (tx : ℕ) → Moves R0 (Dispatch.handle_request_id env a tx)
  unfolding Dispatch.handle_request_id
  handle_request_id-Moves a tx =
      if-Moves (λ s. not (State.is_leader env s)) _ _
        (if-Moves (λ s. State.get_leader_id env s == 0) _ _ (same-Moves g.basic (λ _. ok tt))
          (record {
            at = λ s.
                (bind-Moves g.basic _ _ (same-Moves g.basic _)
                    λ a. send_server-Moves g.basic tx _).at
                  s;
          }))
        (record {
          at = λ s.
              (bind-Moves g.basic _ _ (same-Moves g.basic _) λ a. send_server-Moves g.basic tx _).at
                s;
        })

  handle_server_request_msg-Moves :
      (m : ServerRequestMsg) → Moves R1 (Dispatch.handle_server_request_msg env m)
  unfolding Dispatch.handle_server_request_msg
  handle_server_request_msg-Moves (request_id a tx) = weaken-Moves g (handle_request_id-Moves a tx)
  handle_server_request_msg-Moves (propose p tx) = handle_propose_request-Moves p _
  handle_server_request_msg-Moves (change_config c tx) =
      before-Moves g _ _ (same-Moves g.basic _) λ change. handle_confchange_request-Moves change _
  handle_server_request_msg-Moves (debug_node tx) =
      weaken-Moves g
        (bind-Moves g.basic _ _ (same-Moves g.basic _) λ _. send_server-Moves g.basic tx _)
  handle_server_request_msg-Moves (get_peers tx) =
      weaken-Moves g
        (bind-Moves g.basic _ _ (same-Moves g.basic _) λ _. send_server-Moves g.basic tx _)
  handle_server_request_msg-Moves (leave_joint tx) =
      weaken-Moves g
        (bind-Moves g.basic _ _ (on_raft-Moves g.basic _) λ _. send_server-Moves g.basic tx _)
  handle_server_request_msg-Moves (create_snapshot tx) = weaken-Moves g (
      bind-Moves g.basic _ _ (same-Moves g.basic _) λ i.
        bind-Moves g.basic _ _ (same-Moves g.basic _) λ h.
          bind-Moves g.basic _ _ (make_snapshot-Moves g.basic env snap i h.term)
            λ _. send_server-Moves g.basic tx _)
  handle_server_request_msg-Moves (send_message m) = weaken-Moves g (step-Moves g.basic env snap m)
  handle_server_request_msg-Moves (set_peers ps tx) = weaken-Moves g (
      bind-Moves g.basic _ _ (record { at = λ s. g.basic.world s s.raw_node s.store _ true })
        λ _. send_server-Moves g.basic tx _)

  pub handle_event-Moves : (e : Event) → Moves R1 (Loop.handle_event env e)
  handle_event-Moves (from_self m) = weaken-Moves g (handle_self_message-Moves g.basic env snap m)
  handle_event-Moves (from_server m) = handle_server_request_msg-Moves m
  handle_event-Moves (from_local m) = handle_local_request_msg-Moves m
  handle_event-Moves nothing = weaken-Moves g (same-Moves g.basic (λ _. ok tt))

  continue-core :
      (s t : Running F S R) (r : Outcome (Unit {0})) (f : Exec (Running F S R) (Unit {0}))
      → R1 s.core (is_ok r) t.core
      → ((u : Running F S R) → R0 u.core (is_ok (f u).0) (f u).1.core)
      → R1 s.core (is_ok (continue r (λ _. f) t).0) (continue r (λ _. f) t).1.core
  continue-core s t (ok a) f h next = g.after s.core t.core _ _ h (next t)
  continue-core s t (err e) f h next = h
  continue-core s t panic f h next = h

  continue-basic :
      (s t : Running F S R) (r : Outcome (Unit {0})) (f : Exec (Running F S R) (Unit {0}))
      → R0 s.core (is_ok r) t.core
      → ((u : Running F S R) → R0 u.core (is_ok (f u).0) (f u).1.core)
      → R0 s.core (is_ok (continue r (λ _. f) t).0) (continue r (λ _. f) t).1.core
  continue-basic s t (ok a) f h next = g.basic.trans s.core t.core _ _ h (next t)
  continue-basic s t (err e) f h next = h
  continue-basic s t panic f h next = h

  pub update_timer-core :
      (elapsed : ℕ) (s : Running F S R)
      → R0 s.core
          (is_ok (Loop.update_timer env elapsed s).0)
          (Loop.update_timer env elapsed s).1.core
  unfolding Loop.update_timer
  update_timer-core elapsed s = go (ltb s.tick_timer elapsed)
    where
      late_or_not : Bool → Outcome (Unit {0}) × Running F S R
      late_or_not late =
          if late
          then (Loop.on_core env (State.change_raft env.raft.tick)
              (record s { tick_timer = s.core.config.tick_interval }))
          else (ok tt, record s { tick_timer = s.tick_timer - elapsed })

      go : (late : Bool) → R0 s.core (is_ok (late_or_not late).0) (late_or_not late).1.core
      go true = (change_raft-Moves g.basic env.raft.tick).at s.core
      go false = g.basic.same s.core true

module _ {F S R : Type 0} {May : F → F → Type 0}
    {R0 R1 : RaftNodeCore F S R → Bool → RaftNodeCore F S R → Type 0} (g : Budget May R0 R1)
    (env : Env F S R) (k : Machine env.fsm May) where
  pub turn-core :
      (e : Event) (elapsed : ℕ) (s : Running F S R)
      → R1 s.core (is_ok (Loop.turn env e elapsed s).0) (Loop.turn env e elapsed s).1.core
  unfolding Loop.turn ◌>>=◌
  turn-core e elapsed s =
      let c : RaftNodeCore F S R = record s.core { now = s.core.now + elapsed } in
      let (r, t) = Loop.handle_event env e c in
      let here : R1 s.core (is_ok r) t =
        g.before s.core c t _ (g.basic.clock s.core c.now c.last_snapshot_created)
          ((handle_event-Moves g env k.snapshot e).at c) in
      continue-core g env k.snapshot s (record s { core = t }) r _ here
        λ u.
          continue-basic g env k.snapshot u _ (Loop.update_timer env elapsed u).0 _
            (update_timer-core g env k.snapshot elapsed u)
            λ v. (on_ready-Moves g.basic env k).at v.core
