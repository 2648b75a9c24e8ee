-- ===== src/Node/Requests.antt =====
-- raftify/src/raft_node/mod.rs: the handlers of the requests of clients, of the user's side, of the
-- server and of the node itself.
use riteraft_ng.Prelude.{
  ℕ, ◌+◌, ◌%◌, String, not, Option, none, List, [], ◌∷◌, ltb, ◌==◌, if◌then◌else◌, length,
}
use riteraft_ng.Outcome.{
  Outcome, ok, err, panic, unwrap, ◌>>=◌ as bind, join_error, rejected, timeout,
}
use riteraft_ng.Exec.{Exec, lift, asks, pure, abort, ◌>>=◌, ◌>>◌}
use riteraft_ng.HashMap
use riteraft_ng.HashMap.{HashMap}
use riteraft_ng.Net.{SocketAddr, Addr, socket}
use riteraft_ng.Peers
use riteraft_ng.Peers.{Peers, InitialRole, u64}
use riteraft_ng.Proto.{
  Bytes, ConfChangeSingle, add_node, ConfChangeV2, default_conf_change, explicit,
}
use riteraft_ng.ConfChange.{from_v2, into_args}
use riteraft_ng.Node.Messages.{
  LocalRequestMsg, ServerRequestMsg, SelfMessage, ClusterJoinTicket, ResponseSender, local, server,
  local_message, server_message, ConfChangeResponseResult, RequestIdResponseResult, ResponseMessage,
  ResponseResult, wrong_leader, ChangeConfigResultType, change_config_success,
  change_config_unknown_error, change_config_rejected, change_config_timeout_error,
  change_config_wrong_leader,
}
use riteraft_ng.Node.Messages
use riteraft_ng.Node.State.{Env, RaftNodeCore, on_raft, send, get_leader_id, is_leader}
use riteraft_ng.Node.Commit.{on_peers}

module _ {F S R : Type 0} (env : Env F S R) where
  -- `peers.get(&leader_id).unwrap().addr.to_string()`
  unfoldable pub leader_addr : RaftNodeCore F S R → Outcome String
  leader_addr s =
      bind (unwrap (Peers.get (get_leader_id env s) s.peers)) λ p. ok (env.net.to_string p.addr)

  -- `response_seq.fetch_add(1)`, which wraps, and the sender kept under its value.
  unfoldable pub keep_sender : ResponseSender → Exec (RaftNodeCore F S R) ℕ
  keep_sender sender s = (
    ok s.response_seq,
    record s {
      response_seq = (s.response_seq + 1) % u64;
      response_senders = HashMap.insert s.response_seq sender s.response_senders;
    },
  )

  abbrev pub propose_reply : ResponseSender → ResponseResult → ResponseMessage F S R
  propose_reply (local tx) r = local_message (Messages.LocalResponseMsg.propose r)
  propose_reply (server tx) r = server_message (Messages.ServerResponseMsg.propose r)

  abbrev pub config_change_reply : ResponseSender → ConfChangeResponseResult → ResponseMessage F S R
  config_change_reply (local tx) r = local_message (Messages.LocalResponseMsg.config_change r)
  config_change_reply (server tx) r = server_message (Messages.ServerResponseMsg.config_change r)

  unfoldable pub handle_propose_request : Bytes → ResponseSender → Exec (RaftNodeCore F S R) Unit
  handle_propose_request proposal sender s =
      if not (is_leader env s)
      then if get_leader_id env s == 0
        then (ok tt, s)
        else ((do
          addr ← asks leader_addr
          send sender (
              propose_reply sender
                (Messages.ResponseResult.wrong_leader (get_leader_id env s) addr)))
            s)
      else ((do seq ← keep_sender sender; on_raft (env.raft.propose (env.seq.encode seq) proposal))
          s)

  unfoldable pub handle_confchange_request :
      ConfChangeV2 → ResponseSender → Exec (RaftNodeCore F S R) Unit
  handle_confchange_request change sender s =
      if env.raft.has_pending_conf s.raw_node
      then (ok tt, s)
      else if not (is_leader env s)
      then if get_leader_id env s == 0
        then (ok tt, s)
        else ((do
          addr ← asks leader_addr
          send sender (
              config_change_reply sender
                (Messages.ConfChangeResponseResult.wrong_leader (get_leader_id env s) addr)))
            s)
      else ((do
        seq ← keep_sender sender
        on_raft (env.raft.propose_conf_change (env.seq.encode seq) change))
          s)

  -- RaftNodeCore::add_peer
  unfoldable pub add_peer : ℕ → Addr → Option InitialRole → Exec (RaftNodeCore F S R) Unit
  add_peer id a role = do
    on_peers env (Peers.add_peer env.net id a role)
    on_peers env (Peers.connect env.dial id)

  -- The loop goes through the map in its order.
  unfoldable pub add_peers : HashMap SocketAddr → Exec (RaftNodeCore F S R) Unit
  add_peers [] = pure tt
  add_peers ((id, a) ∷ rest) = do add_peer id (socket a) none; add_peers rest

  -- The change that a list of tickets asks for; a text that is no address panics.
  unfoldable pub join_changes :
      List ClusterJoinTicket → Outcome (List ConfChangeSingle × List SocketAddr)
  join_changes [] = ok ([], [])
  join_changes (t ∷ ts) = bind (unwrap (env.net.parse t.raft_addr)) λ a.
      bind (join_changes ts) λ (cs, addrs).
        ok (record { change_type = add_node; node_id = t.reserved_id } ∷ cs, a ∷ addrs)

  unfoldable pub join_change : List ClusterJoinTicket → Outcome ConfChangeV2
  join_change tickets = bind (join_changes tickets) λ (cs, addrs).
      let change = record default_conf_change { changes = cs; context = env.addrs.encode addrs } in
      ok (if ltb 1 (length tickets) then record change { transition = explicit } else change)

  -- The answer of the leader; a wrong leader is `unreachable!`.
  abbrev pub join_result : ChangeConfigResultType → Outcome (Unit {0})
  join_result change_config_success = ok tt
  join_result change_config_unknown_error = err join_error
  join_result change_config_rejected = err (rejected "Confchange request rejected")
  join_result change_config_timeout_error = err timeout
  join_result change_config_wrong_leader = panic

  -- `tickets[0]` panics without a ticket; the leader's address must resolve.
  unfoldable pub handle_join : List ClusterJoinTicket → Exec (RaftNodeCore F S R) Unit
  handle_join [] = abort
  handle_join (t ∷ ts) = do
    change ← lift (join_change (t ∷ ts))
    request ← lift (from_v2 env.addrs change)
    leader ← lift (unwrap (env.net.resolve t.leader_addr))
    client ← asks (λ s. env.dial leader s.config.client_tls_config)
    answer ← lift (env.call_change_config client (into_args env.net request))
    lift (join_result answer)
