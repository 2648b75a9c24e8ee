-- ===== src/Server/Responses.antt =====
-- raftify/src/raft_server.rs: what a client reads from the responses.
use riteraft_ng.Prelude.{ℕ, String, ◌≡◌, refl, ap, true, Option, some, [], ◌∷◌, ◌++◌, arith}
use riteraft_ng.Outcome.{ok, >>=-eq-ok, ◌>>=◌ as bind}
use riteraft_ng.Exec.{◌>>=◌}
use riteraft_ng.Peers.Wire.{addrs_of, into_addrs}
use riteraft_ng.Peers.{Peer, Peers}
use riteraft_ng.HashMap.{HashMap}
use riteraft_ng.Proto.{Bytes}
use riteraft_ng.ConfChange.{ChangeConfigArgs}
use riteraft_ng.Node.Messages.{
  change_config_success, ConfChangeResponseResult, RequestIdResponseResult, ServerResponseMsg,
}
use riteraft_ng.Node.State.{Env, RaftNodeCore, to_server, is_leader, get_id}
use riteraft_ng.Node.Dispatch.{handle_request_id, reserved_id}
use riteraft_ng.Server.{
  Server, ChangeConfigResponse, change_config, change_response, answered, id_response, request_id,
  ticket, without_clients,
}

-- Whatever the node answers to a change of the membership, also an error, and whatever another
-- server answers where the request was forwarded, the response that is returned says success.
pub change_config-success :
    (v : Server) (args : ChangeConfigArgs) (result : ConfChangeResponseResult)
    (r : ChangeConfigResponse)
    → change_config v args (answered (ServerResponseMsg.config_change result)) ≡ ok r
    → r.result_type ≡ change_config_success
unfolding change_config
change_config-success v args result r h =
    let (q, _, e) = >>=-eq-ok (change_response v args result) _ h in ground arith

addrs_of-without_clients : (m : HashMap Peer) → addrs_of (without_clients m) ≡ addrs_of m
addrs_of-without_clients [] = refl
addrs_of-without_clients ((k, v) ∷ m) = ap (λ rest. (k, v.addr) ∷ rest) (addrs_of-without_clients m)

module _ {F S R : Type 0} (env : Env F S R) where
  -- A leader that has an identifier for an address, with the receiver still there, sends exactly one
  -- answer and changes nothing else; and the ticket that is read from the server's response to it
  -- holds that identifier, the address, the leader's address and the addresses of the peers, where
  -- these are decoded as they were encoded, but for the connections.
  pub request_id-ticket :
      (v : Server) (decode_peers : Bytes → Option Peers) (a : String) (tx id : ℕ)
      (s : RaftNodeCore F S R)
      → is_leader env s ≡ true
      → reserved_id env a s ≡ ok id
      → s.receivers tx ≡ true
      → decode_peers (v.encode_peers s.peers)
        ≡ some (record s.peers { inner = without_clients s.peers.inner })
      → (m : ServerResponseMsg) × (handle_request_id env a tx s
          ≡ (ok tt, record s { replies = s.replies ++ to_server tx m ∷ [] }))
        × (bind (request_id v a m) (ticket decode_peers a)
            ≡ ok (record {
              reserved_id = id;
              raft_addr = a;
              leader_addr = v.net.to_string v.raft_addr;
              peers = into_addrs s.peers;
            }))
  unfolding handle_request_id request_id id_response ticket into_addrs ◌>>=◌
  request_id-ticket v decode_peers a tx id s l e r d = (
    ServerResponseMsg.request_id (RequestIdResponseResult.success id (get_id env s) s.peers),
    rw (l, e, r),
    rw (d, addrs_of-without_clients s.peers.inner),
  )
