-- ===== src/Server/Methods.antt =====
-- raftify/src/raft_server.rs: the methods that pass one message to the node and return what it
-- answers; `ask` is what the waiting for the answer ends in. A message that cannot be sent is only
-- logged, and its sender dropped.
use riteraft_ng.Prelude.{ℕ, String}
use riteraft_ng.Outcome.{Outcome, ok, panic, ◌>>=◌ as bind}
use riteraft_ng.Peers.{Peers}
use riteraft_ng.Peers.Wire.{WirePeers, from_wire}
use riteraft_ng.Proto.{Bytes, Message}
use riteraft_ng.ConfChange.{ChangeConfigArgs, from_args}
use riteraft_ng.Node.Messages.{ServerRequestMsg, ServerResponseMsg}
use riteraft_ng.Server
use riteraft_ng.Server.{
  Awaited, ChangeConfigResponse, ProposeResponse, RequestIdResponse, Server, await,
}

-- raft_service::Empty
pub data Empty : Type 0 where
  empty : Empty

-- An answer of another kind is `unreachable!`.
abbrev pub read_debug_node : ServerResponseMsg → Outcome String
read_debug_node (ServerResponseMsg.debug_node result_json) = ok result_json
read_debug_node _ = panic

abbrev pub read_peers : (Peers → String) → ServerResponseMsg → Outcome String
read_peers to_json (ServerResponseMsg.get_peers peers) = ok (to_json peers)
read_peers to_json _ = panic

abbrev pub read_leave_joint : ServerResponseMsg → Outcome Empty
read_leave_joint ServerResponseMsg.leave_joint = ok empty
read_leave_joint _ = panic

abbrev pub read_set_peers : ServerResponseMsg → Outcome Empty
read_set_peers ServerResponseMsg.set_peers = ok empty
read_set_peers _ = panic

abbrev pub read_create_snapshot : ServerResponseMsg → Outcome Empty
read_create_snapshot ServerResponseMsg.create_snapshot = ok empty
read_create_snapshot _ = panic

module _ (ask : ServerRequestMsg → Awaited) (tx : ℕ) where
  unfoldable pub request_id : Server → String → Outcome RequestIdResponse
  request_id v raft_addr =
      bind (await (ask (ServerRequestMsg.request_id raft_addr tx))) (Server.request_id v raft_addr)

  unfoldable pub change_config : Server → ChangeConfigArgs → Outcome ChangeConfigResponse
  change_config v args =
      bind (from_args v.net args)
        λ request. Server.change_config v args (ask (ServerRequestMsg.change_config request tx))

  -- The answer of raft-rs is not waited for.
  unfoldable pub send_message : Message → Outcome Empty
  send_message message = let sent = ask (ServerRequestMsg.send_message message) in ok empty

  unfoldable pub propose : Server → Bytes → Outcome ProposeResponse
  propose v msg = bind (await (ask (ServerRequestMsg.propose msg tx))) (Server.propose v msg)

  unfoldable pub debug_node : Outcome String
  debug_node = bind (await (ask (ServerRequestMsg.debug_node tx))) read_debug_node

  unfoldable pub get_peers : (Peers → String) → Outcome String
  get_peers to_json = bind (await (ask (ServerRequestMsg.get_peers tx))) (read_peers to_json)

  unfoldable pub leave_joint : Outcome Empty
  leave_joint = bind (await (ask (ServerRequestMsg.leave_joint tx))) read_leave_joint

  unfoldable pub set_peers : Server → WirePeers → Outcome Empty
  set_peers v ws =
      bind (from_wire v.net ws)
        λ peers. bind (await (ask (ServerRequestMsg.set_peers peers tx))) read_set_peers

  unfoldable pub create_snapshot : Outcome Empty
  create_snapshot = bind (await (ask (ServerRequestMsg.create_snapshot tx))) read_create_snapshot
