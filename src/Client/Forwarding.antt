-- ===== src/Client/Forwarding.antt =====
-- raftify/src/raft_node/mod.rs and raftify/src/raft_server.rs: what the user of a node that does not
-- lead is told.
use riteraft_ng.Prelude.{ℕ, String, ◌≡◌, true, false, none, some, List, [], ◌∷◌, ◌++◌, ◌==◌}
use riteraft_ng.Outcome.{Error, ok, panic, unknown}
use riteraft_ng.Exec.{◌>>=◌}
use riteraft_ng.Peers
use riteraft_ng.Peers.{Peer, Peers}
use riteraft_ng.Proto.{Bytes, ConfChangeV2}
use riteraft_ng.ConfChange.{ConfChangeRequest, from_v2}
use riteraft_ng.Node.Messages.{
  ConfChangeResponseResult, LocalRequestMsg, LocalResponseMsg, ResponseResult, ServerResponseMsg,
}
use riteraft_ng.Node.State.{Env, RaftNodeCore, to_local, is_leader, get_leader_id}
use riteraft_ng.Node.Requests
use riteraft_ng.Node.Dispatch.{handle_local_request_msg}
use riteraft_ng.Server
use riteraft_ng.Server.{Server, without_clients}
use riteraft_ng.Client
use riteraft_ng.Client.{Awaited, answered}
use riteraft_ng.Client.Reads.{
  Client, create_client, change_result, forwarded_result, propose_result,
}
use riteraft_ng.Client.Answers.{answer_on, answer_on-append, received}

-- The client whose calls of the leader reach a server that waits for the given answer.
abbrev pub through : Client → Server → Server.Awaited → Client
through v w a = record v { call_change_config = λ c args. Server.change_config w args a }

module _ {F S R : Type 0} (ask : LocalRequestMsg → Awaited F S R) (tx : ℕ) where
  -- When a node answers a change of the membership with another leader, which can be reached, the
  -- user is told as follows, by what the leader's server receives from its node: after a join the
  -- identifiers and the peers, without the connections, where these are decoded as they were
  -- encoded; after a removal, and after an error, the call panics, where no peers are decoded from
  -- nothing; where the server was told nothing or waited too long, an unknown error.
  pub change_config-forwarded :
      (v : Client) (w : Server) (change : ConfChangeV2) (request : ConfChangeRequest) (l c : ℕ)
      (addr : String) (peers : Peers) (ids : List ℕ) (e : Error)
      → from_v2 v.addrs change ≡ ok request
      → ask (LocalRequestMsg.change_config request tx)
        ≡ answered (LocalResponseMsg.config_change (ConfChangeResponseResult.wrong_leader l addr))
      → create_client v addr ≡ ok c
      → v.decode_peers [] ≡ none
      → v.decode_peers (w.encode_peers peers)
        ≡ some (record peers { inner = without_clients peers.inner })
      → let result = λ (a : Server.Awaited). Client.change_config ask tx (through v w a) change in
        let told =
          λ (r : ConfChangeResponseResult). Server.answered (ServerResponseMsg.config_change r) in
        (result (told (ConfChangeResponseResult.join_success ids peers))
          ≡ ok (
              ConfChangeResponseResult.join_success ids
                (record peers { inner = without_clients peers.inner })))
        × (result (told ConfChangeResponseResult.remove_success) ≡ panic)
        × (result (told (ConfChangeResponseResult.error e)) ≡ panic)
        × (result Server.dropped ≡ ok (ConfChangeResponseResult.error unknown))
        × (result Server.timed_out ≡ ok (ConfChangeResponseResult.error unknown))
  unfolding Client.change_config create_client change_result forwarded_result Server.change_config
      Server.change_response
  change_config-forwarded v w change request l c addr peers ids e f a d n p =
      (rw (f, a, d, p), rw (f, a, d, n), rw (f, a, d, n), rw (f, a, d), rw (f, a, d))

  -- When a node answers a proposal with another leader, which can be reached, the proposal is
  -- reported as a success whatever the leader's node answered, also when that was an error.
  pub propose-forwarded :
      (v : Client) (w : Server) (proposal : Bytes) (l c : ℕ) (addr : String) (e : Error)
      → ask (LocalRequestMsg.propose proposal tx)
        ≡ answered (LocalResponseMsg.propose (ResponseResult.wrong_leader l addr))
      → create_client v addr ≡ ok c
      → let result = λ (r : ResponseResult).
        Client.propose ask tx
          (record v { call_propose = λ c msg. Server.propose w msg (ServerResponseMsg.propose r) })
          proposal in
        (result ResponseResult.success ≡ ok tt) × (result (ResponseResult.error e) ≡ ok tt)
  unfolding Client.propose create_client propose_result Server.propose Server.propose_response
  propose-forwarded v w proposal l c addr e a d = (rw (a, d), rw (a, d))

module _ {F S R : Type 0} (env : Env F S R) where
  -- A node that does not lead, knows the leader among its peers and has no change pending, reports a
  -- leave as a success to its user, where the receiver is there and nothing was sent on the channel
  -- before; but it only names the leader in an answer that is not looked at, and changes nothing
  -- else: the node has not asked to leave.
  pub leave-refused :
      (s : RaftNodeCore F S R) (peer : Peer) (tx : ℕ)
      → is_leader env s ≡ false
      → (get_leader_id env s == 0) ≡ false
      → Peers.get (get_leader_id env s) s.peers ≡ some peer
      → env.raft.has_pending_conf s.raw_node ≡ false
      → s.receivers tx ≡ true
      → answer_on tx s.replies ≡ none
      → (Client.leave (λ m. received tx (handle_local_request_msg env m s).1) tx ≡ ok tt)
        × ((handle_local_request_msg env (LocalRequestMsg.leave tx) s).1 ≡ record s {
          replies =
              s.replies
              ++ to_local tx (
                  LocalResponseMsg.config_change (
                    ConfChangeResponseResult.wrong_leader
                      (get_leader_id env s)
                      (env.net.to_string peer.addr)))
                ∷ [];
        })
  unfolding handle_local_request_msg Client.leave Requests.handle_confchange_request
      Requests.leader_addr ◌>>=◌
  leave-refused s peer tx l z k p r n = (
    rw (
      p,
      l,
      z,
      k,
      r,
      answer_on-append tx s.replies
          (LocalResponseMsg.config_change (
            ConfChangeResponseResult.wrong_leader (get_leader_id env s)
              (env.net.to_string peer.addr)))
          n,
    ),
    rw (p, l, z, k, r),
  )
