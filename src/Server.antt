-- ===== src/Server.antt =====
-- raftify/src/raft_server.rs: the gRPC side of a node. Each method sends the node one message and
-- turns the answer into a response; and `Raft::request_id` of raftify/src/raft_bootstrapper.rs,
-- which reads the response. A failed call to another node is an error; to open a connection that
-- fails is a panic.
use riteraft_ng.Prelude.{ℕ, String, Option, none, List, [], ◌∷◌}
use riteraft_ng.Outcome.{
  Error, Outcome, ok, err, panic, or_fail, unwrap, unwrap_ok, join_error, other_error,
  ◌>>=◌ as bind,
}
use riteraft_ng.HashMap.{HashMap}
use riteraft_ng.Net.{SocketAddr, Resolver}
use riteraft_ng.Peers.{Peer, Peers, TlsConfig}
use riteraft_ng.Peers.Wire.{into_addrs}
use riteraft_ng.Proto.{Bytes}
use riteraft_ng.ConfChange.{ChangeConfigArgs}
use riteraft_ng.Node.Messages.{
  ChangeConfigResultType, change_config_success, change_config_unknown_error,
  change_config_timeout_error, ClusterJoinTicket, ConfChangeResponseResult, RequestIdResponseResult,
  ResponseResult, ServerResponseMsg,
}
pub mod Responses
pub mod Methods
pub mod Kinds
pub mod NoLeader
mod Examples

pub data ResultCode : Type 0 where
  ok_code error_code wrong_leader_code : ResultCode

pub record RequestIdResponse : Type 0 where
  pub code : ResultCode
  pub leader_id : ℕ
  pub reserved_id : ℕ
  pub leader_addr : String
  pub error : Bytes
  pub peers : Bytes

pub record ChangeConfigResponse : Type 0 where
  pub result_type : ChangeConfigResultType
  pub assigned_ids : List ℕ
  pub peers : Bytes
  pub error : Bytes

pub record ProposeResponse : Type 0 where
  pub error : Bytes

-- The `default()` values.
abbrev pub default_id_response : RequestIdResponse
default_id_response = record {
  code = ResultCode.ok_code;
  leader_id = 0;
  reserved_id = 0;
  leader_addr = "";
  error = [];
  peers = [];
}

abbrev pub default_change_response : ChangeConfigResponse
default_change_response = record {
  result_type = change_config_success;
  assigned_ids = [];
  peers = [];
  error = [];
}

-- What waiting for the node's answer ends in: the answer, a sender that was dropped, or, where there
-- is a limit, the time out.
pub data Awaited : Type 0 where
  answered : ServerResponseMsg → Awaited
  dropped timed_out : Awaited

-- The encoding of the peers keeps everything but the connections.
abbrev disconnected : Peer → Peer
disconnected p = record p { client = none }

abbrev pub without_clients : HashMap Peer → HashMap Peer
without_clients [] = []
without_clients ((k, v) ∷ m) = (k, disconnected v) ∷ without_clients m

-- The server, its encodings, and the calls of other servers. `to_string` prints an error.
pub record Server : Type 0 where
  pub raft_addr : SocketAddr
  pub client_tls_config : Option TlsConfig
  pub net : Resolver
  pub encode_peers : Peers → Bytes
  pub to_string : Error → Bytes
  pub elapsed : Error
  pub recv : Error
  pub dial : SocketAddr → Option TlsConfig → Outcome ℕ
  pub call_request_id : ℕ → String → Outcome RequestIdResponse
  pub call_change_config : ℕ → ChangeConfigArgs → Outcome ChangeConfigResponse
  pub call_propose : ℕ → Bytes → Outcome (Unit {0})

-- `create_client(…).await.unwrap()`
unfoldable pub client : Server → String → Outcome ℕ
client v addr = bind (unwrap (v.net.resolve addr)) (λ a. unwrap_ok (v.dial a v.client_tls_config))

-- `rx_msg.await.unwrap()`
abbrev pub await : Awaited → Outcome ServerResponseMsg
await (answered m) = ok m
await _ = panic

unfoldable pub id_response : Server → String → RequestIdResponseResult → Outcome RequestIdResponse
id_response v addr (RequestIdResponseResult.success reserved_id leader_id peers) =
    ok (record default_id_response {
      leader_id = leader_id;
      reserved_id = reserved_id;
      leader_addr = v.net.to_string v.raft_addr;
      peers = v.encode_peers peers;
    })
id_response v addr (RequestIdResponseResult.error e) =
    ok (record default_id_response { code = ResultCode.error_code; error = v.to_string e })
id_response v addr (RequestIdResponseResult.wrong_leader leader_id leader_addr) =
    bind (client v leader_addr) (λ c. v.call_request_id c addr)

-- An answer of another kind is `unreachable!`.
unfoldable pub request_id : Server → String → ServerResponseMsg → Outcome RequestIdResponse
request_id v addr (ServerResponseMsg.request_id result) = id_response v addr result
request_id v addr _ = panic

-- The response before its result is set to success.
unfoldable pub change_response :
    Server → ChangeConfigArgs → ConfChangeResponseResult → Outcome ChangeConfigResponse
change_response v args (ConfChangeResponseResult.join_success assigned_ids peers) =
    ok
      (record default_change_response { assigned_ids = assigned_ids; peers = v.encode_peers peers })
change_response v args ConfChangeResponseResult.remove_success = ok default_change_response
change_response v args (ConfChangeResponseResult.error e) = ok (record default_change_response {
  result_type = change_config_unknown_error;
  error = v.to_string e;
})
change_response v args (ConfChangeResponseResult.wrong_leader leader_id leader_addr) =
    bind (client v leader_addr) (λ c. v.call_change_config c args)

abbrev pub set_success : ChangeConfigResponse → ChangeConfigResponse
set_success r = record r { result_type = change_config_success }

unfoldable pub change_config : Server → ChangeConfigArgs → Awaited → Outcome ChangeConfigResponse
change_config v args (answered (ServerResponseMsg.config_change result)) =
    bind (change_response v args result) (λ r. ok (set_success r))
change_config v args (answered _) = panic
change_config v args dropped = ok (record default_change_response {
  result_type = change_config_unknown_error;
  error = v.to_string v.recv;
})
change_config v args timed_out = ok (record default_change_response {
  result_type = change_config_timeout_error;
  error = v.to_string v.elapsed;
})

unfoldable pub propose_response : Server → Bytes → ResponseResult → Outcome ProposeResponse
propose_response v msg ResponseResult.success = ok (record { error = [] })
propose_response v msg (ResponseResult.error e) = ok (record { error = v.to_string e })
propose_response v msg (ResponseResult.wrong_leader leader_id leader_addr) =
    bind (client v leader_addr) λ c. bind (v.call_propose c msg) λ _. ok (record { error = [] })

unfoldable pub propose : Server → Bytes → ServerResponseMsg → Outcome ProposeResponse
propose v msg (ServerResponseMsg.propose result) = propose_response v msg result
propose v msg _ = panic

-- Raft::request_id, from the response on.
unfoldable pub ticket :
    (Bytes → Option Peers) → String → RequestIdResponse → Outcome ClusterJoinTicket
ticket decode_peers raft_addr r = bind (or_fail (decode_peers r.peers) other_error) λ peers.
    elim r.code [
      | ResultCode.ok_code ↦ ok (record {
        reserved_id = r.reserved_id;
        raft_addr = raft_addr;
        leader_addr = r.leader_addr;
        peers = into_addrs peers;
      })
      | ResultCode.error_code ↦ err join_error
      | ResultCode.wrong_leader_code ↦ panic
    ]
