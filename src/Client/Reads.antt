-- ===== src/Client/Reads.antt =====
-- raftify/src/raft_node/mod.rs: how the methods of `RaftNode` read the node's answers. A failed
-- connection or call is an error with `?`, and a panic with `unwrap`.
use riteraft_ng.Prelude.{ℕ, String, Bool, Option, List}
use riteraft_ng.Outcome.{Outcome, ok, err, panic, unwrap, unwrap_ok, unknown, ◌>>=◌ as bind}
use riteraft_ng.Net.{SocketAddr, Resolver}
use riteraft_ng.Peers.{Peers, TlsConfig}
use riteraft_ng.Proto.{Bytes, Codec}
use riteraft_ng.ConfChange.{ChangeConfigArgs, ConfChangeRequest, into_args}
use riteraft_ng.Node.Messages.{
  change_config_success, ConfChangeResponseResult, LocalResponseMsg, ResponseResult,
}
use riteraft_ng.Server.{ChangeConfigResponse, ProposeResponse}

-- The configuration of the node and the calls of other nodes.
pub record Client : Type 0 where
  pub client_tls_config : Option TlsConfig
  pub net : Resolver
  pub addrs : Codec (List SocketAddr)
  pub decode_peers : Bytes → Option Peers
  pub dial : SocketAddr → Option TlsConfig → Outcome ℕ
  pub call_propose : ℕ → Bytes → Outcome ProposeResponse
  pub call_change_config : ℕ → ChangeConfigArgs → Outcome ChangeConfigResponse

-- `create_client(addr, …)`, where a text that is no address panics.
unfoldable pub create_client : Client → String → Outcome ℕ
create_client v addr = bind (unwrap (v.net.resolve addr)) (λ a. v.dial a v.client_tls_config)

-- A proposal that went to the leader has succeeded when the call returns, whatever it returns.
unfoldable pub propose_result : Client → Bytes → ResponseResult → Outcome (Unit {0})
propose_result v proposal ResponseResult.success = ok tt
propose_result v proposal (ResponseResult.error e) = err e
propose_result v proposal (ResponseResult.wrong_leader leader_id leader_addr) =
    bind (create_client v leader_addr) λ c. bind (v.call_propose c proposal) λ _. ok tt

-- What another node answered; success is taken for the success of a join.
unfoldable pub forwarded_result : Client → ChangeConfigResponse → Outcome ConfChangeResponseResult
forwarded_result v r = elim r.result_type [
  | change_config_success ↦
      bind (unwrap (v.decode_peers r.peers))
        (λ peers. ok (ConfChangeResponseResult.join_success r.assigned_ids peers))
  | _ ↦ ok (ConfChangeResponseResult.error unknown)
]

unfoldable pub change_result :
    Client → ConfChangeRequest → ConfChangeResponseResult → Outcome ConfChangeResponseResult
change_result v request (ConfChangeResponseResult.wrong_leader leader_id leader_addr) =
    bind (unwrap_ok (create_client v leader_addr))
      λ c. bind (unwrap_ok (v.call_change_config c (into_args v.net request))) (forwarded_result v)
change_result v request result = ok result

module _ {F S R : Type 0} where
  -- Each method's `match`; an answer of another kind is `unreachable!`.
  abbrev pub read_is_leader : LocalResponseMsg F S R → Outcome Bool
  read_is_leader (LocalResponseMsg.is_leader b) = ok b
  read_is_leader _ = panic

  abbrev pub read_id : LocalResponseMsg F S R → Outcome ℕ
  read_id (LocalResponseMsg.get_id id) = ok id
  read_id _ = panic

  abbrev pub read_leader_id : LocalResponseMsg F S R → Outcome ℕ
  read_leader_id (LocalResponseMsg.get_leader_id id) = ok id
  read_leader_id _ = panic

  abbrev pub read_peers : LocalResponseMsg F S R → Outcome Peers
  read_peers (LocalResponseMsg.get_peers peers) = ok peers
  read_peers _ = panic

  abbrev pub read_add_peer : LocalResponseMsg F S R → Outcome (Unit {0})
  read_add_peer LocalResponseMsg.add_peer = ok tt
  read_add_peer _ = panic

  abbrev pub read_add_peers : LocalResponseMsg F S R → Outcome (Unit {0})
  read_add_peers LocalResponseMsg.add_peers = ok tt
  read_add_peers _ = panic

  abbrev pub read_inspect : LocalResponseMsg F S R → Outcome String
  read_inspect (LocalResponseMsg.debug_node json) = ok json
  read_inspect _ = panic

  abbrev pub read_state_machine : LocalResponseMsg F S R → Outcome F
  read_state_machine (LocalResponseMsg.get_state_machine store) = ok store
  read_state_machine _ = panic

  abbrev pub read_storage : LocalResponseMsg F S R → Outcome S
  read_storage (LocalResponseMsg.get_storage storage) = ok storage
  read_storage _ = panic

  abbrev pub read_cluster_size : LocalResponseMsg F S R → Outcome ℕ
  read_cluster_size (LocalResponseMsg.get_cluster_size size) = ok size
  read_cluster_size _ = panic

  abbrev pub read_quit : LocalResponseMsg F S R → Outcome (Unit {0})
  read_quit LocalResponseMsg.quit = ok tt
  read_quit _ = panic

  abbrev pub read_transfer_leader : LocalResponseMsg F S R → Outcome (Unit {0})
  read_transfer_leader LocalResponseMsg.transfer_leader = ok tt
  read_transfer_leader _ = panic

  abbrev pub read_campaign : LocalResponseMsg F S R → Outcome (Unit {0})
  read_campaign LocalResponseMsg.campaign = ok tt
  read_campaign _ = panic

  abbrev pub read_demote : LocalResponseMsg F S R → Outcome (Unit {0})
  read_demote LocalResponseMsg.demote = ok tt
  read_demote _ = panic

  -- The result of the change is not looked at.
  abbrev pub read_leave : LocalResponseMsg F S R → Outcome (Unit {0})
  read_leave (LocalResponseMsg.config_change _) = ok tt
  read_leave _ = panic

  abbrev pub read_send_message : LocalResponseMsg F S R → Outcome (Unit {0})
  read_send_message LocalResponseMsg.send_message = ok tt
  read_send_message _ = panic

  abbrev pub read_make_snapshot : LocalResponseMsg F S R → Outcome (Unit {0})
  read_make_snapshot LocalResponseMsg.make_snapshot = ok tt
  read_make_snapshot _ = panic

  abbrev pub read_join_cluster : LocalResponseMsg F S R → Outcome (Unit {0})
  read_join_cluster LocalResponseMsg.join_cluster = ok tt
  read_join_cluster _ = panic

  abbrev pub read_raw_node : LocalResponseMsg F S R → Outcome R
  read_raw_node (LocalResponseMsg.get_raw_node raw_node) = ok raw_node
  read_raw_node _ = panic

  abbrev pub read_propose : Client → Bytes → LocalResponseMsg F S R → Outcome (Unit {0})
  read_propose v proposal (LocalResponseMsg.propose result) = propose_result v proposal result
  read_propose v proposal _ = panic

  abbrev pub read_change_config :
      Client → ConfChangeRequest → LocalResponseMsg F S R → Outcome ConfChangeResponseResult
  read_change_config v request (LocalResponseMsg.config_change result) =
      change_result v request result
  read_change_config v request _ = panic
