-- ===== src/Node/Dispatch.antt =====
-- raftify/src/raft_node/mod.rs: `handle_local_request_msg`, `handle_self_message` and
-- `handle_server_request_msg`. A reference to raft-rs's node that a reply carries is its value.
use riteraft_ng.Prelude.{ℕ, String, true, not, none, some, [], ◌∷◌, ◌==◌, if◌then◌else◌}
use riteraft_ng.Outcome.{Outcome, ok, err, panic, ◌>>=◌ as bind}
use riteraft_ng.Exec.{Exec, lift, gets, asks, pure, abort, modify, ◌>>=◌, ◌>>◌}
use riteraft_ng.Net.{text}
use riteraft_ng.Peers
use riteraft_ng.Proto.{Message, remove_node, ConfChangeV2, default_conf_change}
use riteraft_ng.ConfChange.{to_confchange_v2, into_v2}
use riteraft_ng.Node.Messages.{
  LocalRequestMsg, ServerRequestMsg, SelfMessage, ResponseSender, LocalResponseMsg,
  ServerResponseMsg, RequestIdResponseResult, is_leader, get_id, get_leader_id, get_peers, add_peer,
  add_peers, debug_node, get_state_machine, get_storage, get_cluster_size, quit, campaign, leave,
  get_raw_node, demote, transfer_leader, make_snapshot, propose, change_config, send_message,
  join_cluster, leave_joint, report_unreachable, request_id, create_snapshot, set_peers,
}
use riteraft_ng.Node.State
use riteraft_ng.Node.State.{
  Env, RaftNodeCore, on_store, on_fsm, on_raft, change_raft, send_local, send_server,
}
use riteraft_ng.Node.Commit
use riteraft_ng.Node.Requests
use riteraft_ng.Node.Requests.{leader_addr, handle_propose_request, handle_confchange_request}

module _ {F S R : Type 0} (env : Env F S R) where
  -- `let _ = self.raw_node.step(…)`: its error is dropped.
  abbrev pub after_step : Outcome (Unit {0}) → Exec (RaftNodeCore F S R) Unit
  after_step (ok u) = pure tt
  after_step (err e) = pure tt
  after_step panic = abort

  abbrev pub step : Message → Exec (RaftNodeCore F S R) Unit
  step m s =
      let (r, t) = env.raft.step m s.store s.raw_node in after_step r (record s { raw_node = t })

  -- The change that removes this node.
  unfoldable pub leave_change : RaftNodeCore F S R → ConfChangeV2
  leave_change s = to_confchange_v2 (record {
    change_type = remove_node;
    node_id = State.get_id env s;
    context = env.addrs.encode (s.raft_addr ∷ []);
    id = 0;
  })

  unfoldable pub handle_local_request_msg : LocalRequestMsg → Exec (RaftNodeCore F S R) Unit
  handle_local_request_msg (is_leader tx) s =
      send_local tx (LocalResponseMsg.is_leader (State.is_leader env s)) s
  handle_local_request_msg (get_id tx) s =
      send_local tx (LocalResponseMsg.get_id (State.get_id env s)) s
  handle_local_request_msg (get_leader_id tx) s =
      send_local tx (LocalResponseMsg.get_leader_id (State.get_leader_id env s)) s
  handle_local_request_msg (get_peers tx) s = send_local tx (LocalResponseMsg.get_peers s.peers) s
  handle_local_request_msg (add_peer id addr role tx) s =
      (Requests.add_peer env id (text addr) role >> send_local tx LocalResponseMsg.add_peer) s
  handle_local_request_msg (add_peers peers tx) s =
      (Requests.add_peers env peers >> send_local tx LocalResponseMsg.add_peers) s
  handle_local_request_msg (get_state_machine tx) s =
      send_local tx (LocalResponseMsg.get_state_machine s.fsm) s
  handle_local_request_msg (get_storage tx) s =
      send_local tx (LocalResponseMsg.get_storage s.store) s
  handle_local_request_msg (debug_node tx) s =
      (do
        json ← asks (λ s. env.inspect s.store s.raw_node)
        send_local tx (LocalResponseMsg.debug_node json))
        s
  handle_local_request_msg (propose proposal tx) s =
      handle_propose_request env proposal (ResponseSender.local tx) s
  handle_local_request_msg (get_cluster_size tx) s =
      send_local tx (LocalResponseMsg.get_cluster_size (env.raft.cluster_size s.raw_node)) s
  handle_local_request_msg (get_raw_node tx) s =
      send_local tx (LocalResponseMsg.get_raw_node s.raw_node) s
  handle_local_request_msg (quit tx) s =
      send_local tx LocalResponseMsg.quit (record s { should_exit = true })
  handle_local_request_msg (campaign tx) s =
      (on_raft env.raft.campaign >> send_local tx LocalResponseMsg.campaign) s
  handle_local_request_msg (demote term leader_id tx) s =
      (change_raft (env.raft.become_follower term leader_id)
          >> send_local tx LocalResponseMsg.demote)
        s
  handle_local_request_msg (leave tx) s =
      handle_confchange_request env (leave_change s) (ResponseSender.local tx) s
  handle_local_request_msg (change_config request tx) s =
      (do
        change ← lift (into_v2 env.addrs request)
        handle_confchange_request env change (ResponseSender.local tx))
        s
  handle_local_request_msg (make_snapshot index term tx) s =
      (Commit.make_snapshot env index term >> send_local tx LocalResponseMsg.make_snapshot) s
  handle_local_request_msg (join_cluster tickets tx) s =
      (Requests.handle_join env tickets >> send_local tx LocalResponseMsg.join_cluster) s
  handle_local_request_msg (send_message message tx) s =
      (step message >> send_local tx LocalResponseMsg.send_message) s
  handle_local_request_msg leave_joint s =
      on_raft (env.raft.propose_conf_change [] default_conf_change) s
  handle_local_request_msg (transfer_leader node_id tx) s =
      (change_raft (env.raft.transfer_leader node_id)
          >> send_local tx LocalResponseMsg.transfer_leader)
        s

  unfoldable pub handle_self_message : SelfMessage → Exec (RaftNodeCore F S R) Unit
  handle_self_message (report_unreachable node_id) =
      change_raft (env.raft.report_unreachable node_id)

  -- The identifier of a node that is known by its address, or a new one.
  unfoldable pub reserved_id : String → RaftNodeCore F S R → Outcome ℕ
  reserved_id raft_addr s =
      bind (Peers.get_node_id_by_addr env.net (text raft_addr) s.peers)
        λ known. elim known [ some id ↦ ok id | none ↦ ok (Peers.reserve_id s.peers) ]

  unfoldable pub handle_request_id : String → ℕ → Exec (RaftNodeCore F S R) Unit
  handle_request_id raft_addr tx s =
      if not (State.is_leader env s)
      then if State.get_leader_id env s == 0
        then (ok tt, s)
        else ((do
          addr ← asks (leader_addr env)
          send_server tx (
              ServerResponseMsg.request_id
                (RequestIdResponseResult.wrong_leader (State.get_leader_id env s) addr)))
            s)
      else ((do
        id ← asks (reserved_id raft_addr)
        send_server tx (
            ServerResponseMsg.request_id
              (RequestIdResponseResult.success id (State.get_id env s) s.peers)))
          s)

  unfoldable pub handle_server_request_msg : ServerRequestMsg → Exec (RaftNodeCore F S R) Unit
  handle_server_request_msg (change_config request tx) = do
    change ← lift (into_v2 env.addrs request)
    handle_confchange_request env change (ResponseSender.server tx)
  handle_server_request_msg (send_message message) = step message
  handle_server_request_msg (propose proposal tx) =
      handle_propose_request env proposal (ResponseSender.server tx)
  handle_server_request_msg (request_id raft_addr tx) = handle_request_id raft_addr tx
  handle_server_request_msg (leave_joint tx) = do
    on_raft (env.raft.propose_conf_change [] default_conf_change)
    send_server tx ServerResponseMsg.leave_joint
  handle_server_request_msg (debug_node tx) = do
    json ← asks (λ s. env.inspect s.store s.raw_node)
    send_server tx (ServerResponseMsg.debug_node json)
  handle_server_request_msg (get_peers tx) = do
    peers ← gets (λ s. s.peers)
    send_server tx (ServerResponseMsg.get_peers peers)
  handle_server_request_msg (create_snapshot tx) = do
    last_index ← asks (λ s. env.storage.last_index s.store)
    hard_state ← asks (λ s. env.storage.hard_state s.store)
    Commit.make_snapshot env last_index hard_state.term
    send_server tx ServerResponseMsg.create_snapshot
  handle_server_request_msg (set_peers peers tx) = do
    modify (λ s. record s { peers = Peers.replace s.peers peers })
    send_server tx ServerResponseMsg.set_peers
