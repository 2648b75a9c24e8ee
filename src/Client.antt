-- ===== src/Client.antt =====
-- raftify/src/raft_node/mod.rs: `RaftNode`, the user's side of a node. Each method sends the node
-- one message with a one-shot channel, and reads the answer.
pub mod Reads
pub mod Answers
pub mod Silence
pub mod Kinds
pub mod Forwarding
pub mod Mismatch
mod Examples
use riteraft_ng.Prelude.{ℕ, String, Bool, Option, List}
use riteraft_ng.Outcome.{Outcome, ok, err, panic, unwrap, recv_error, ◌>>=◌ as bind}
use riteraft_ng.Net.{SocketAddr, Resolver}
use riteraft_ng.Peers.{InitialRole, Peers}
use riteraft_ng.HashMap.{HashMap}
use riteraft_ng.Proto.{Bytes, ConfChangeV2, Message}
use riteraft_ng.ConfChange.{from_v2}
use riteraft_ng.Node.Messages.{
  ClusterJoinTicket, ConfChangeResponseResult, LocalRequestMsg, LocalResponseMsg,
}
use Reads.{
  Client, read_add_peer, read_add_peers, read_campaign, read_change_config, read_cluster_size,
  read_demote, read_id, read_inspect, read_is_leader, read_join_cluster, read_leader_id, read_leave,
  read_make_snapshot, read_peers, read_propose, read_quit, read_raw_node, read_send_message,
  read_state_machine, read_storage, read_transfer_leader,
}

-- What `rx.await` ends in: the answer, or a sender that was dropped; `closed` is a node that has
-- ended, so that the message could not be sent.
pub data Awaited (F S R : Type 0) : Type 0 where
  answered : LocalResponseMsg F S R → Awaited F S R
  dropped closed : Awaited F S R

module _ {F S R : Type 0} where
  -- `tx_local.send(…).await.unwrap()` and `rx.await?`
  abbrev pub await : Awaited F S R → Outcome (LocalResponseMsg F S R)
  await (answered m) = ok m
  await dropped = err recv_error
  await closed = panic

  abbrev sent : Awaited F S R → Outcome (Unit {0})
  sent closed = panic
  sent _ = ok tt

  -- The methods. `ask` is the node: what the waiting for the answer to a message ends in.
  module _ (ask : LocalRequestMsg → Awaited F S R) (tx : ℕ) where
    unfoldable pub is_leader : Outcome Bool
    is_leader = bind (await (ask (LocalRequestMsg.is_leader tx))) read_is_leader

    unfoldable pub get_id : Outcome ℕ
    get_id = bind (await (ask (LocalRequestMsg.get_id tx))) read_id

    unfoldable pub get_leader_id : Outcome ℕ
    get_leader_id = bind (await (ask (LocalRequestMsg.get_leader_id tx))) read_leader_id

    unfoldable pub get_peers : Outcome Peers
    get_peers = bind (await (ask (LocalRequestMsg.get_peers tx))) read_peers

    -- The address is resolved before the message is sent.
    unfoldable pub add_peer : Resolver → ℕ → String → Option InitialRole → Outcome (Unit {0})
    add_peer net id addr role = bind (unwrap (net.resolve addr)) λ a.
        bind (await (ask (LocalRequestMsg.add_peer id (net.to_string a) role tx))) read_add_peer

    unfoldable pub add_peers : HashMap SocketAddr → Outcome (Unit {0})
    add_peers peers = bind (await (ask (LocalRequestMsg.add_peers peers tx))) read_add_peers

    unfoldable pub inspect : Outcome String
    inspect = bind (await (ask (LocalRequestMsg.debug_node tx))) read_inspect

    unfoldable pub state_machine : Outcome F
    state_machine = bind (await (ask (LocalRequestMsg.get_state_machine tx))) read_state_machine

    unfoldable pub storage : Outcome S
    storage = bind (await (ask (LocalRequestMsg.get_storage tx))) read_storage

    unfoldable pub propose : Client → Bytes → Outcome (Unit {0})
    propose v proposal =
        bind (await (ask (LocalRequestMsg.propose proposal tx))) (read_propose v proposal)

    unfoldable pub change_config : Client → ConfChangeV2 → Outcome ConfChangeResponseResult
    change_config v change = bind (from_v2 v.addrs change) λ request.
        bind (await (ask (LocalRequestMsg.change_config request tx))) (read_change_config v request)

    unfoldable pub get_cluster_size : Outcome ℕ
    get_cluster_size = bind (await (ask (LocalRequestMsg.get_cluster_size tx))) read_cluster_size

    unfoldable pub quit : Outcome (Unit {0})
    quit = bind (await (ask (LocalRequestMsg.quit tx))) read_quit

    unfoldable pub transfer_leader : ℕ → Outcome (Unit {0})
    transfer_leader node_id =
        bind (await (ask (LocalRequestMsg.transfer_leader node_id tx))) read_transfer_leader

    unfoldable pub campaign : Outcome (Unit {0})
    campaign = bind (await (ask (LocalRequestMsg.campaign tx))) read_campaign

    unfoldable pub demote : ℕ → ℕ → Outcome (Unit {0})
    demote term leader_id =
        bind (await (ask (LocalRequestMsg.demote term leader_id tx))) read_demote

    unfoldable pub leave : Outcome (Unit {0})
    leave = bind (await (ask (LocalRequestMsg.leave tx))) read_leave

    unfoldable pub send_message : Message → Outcome (Unit {0})
    send_message message =
        bind (await (ask (LocalRequestMsg.send_message message tx))) read_send_message

    unfoldable pub make_snapshot : ℕ → ℕ → Outcome (Unit {0})
    make_snapshot index term =
        bind (await (ask (LocalRequestMsg.make_snapshot index term tx))) read_make_snapshot

    unfoldable pub join_cluster : List ClusterJoinTicket → Outcome (Unit {0})
    join_cluster tickets =
        bind (await (ask (LocalRequestMsg.join_cluster tickets tx))) read_join_cluster

    unfoldable pub get_raw_node : Outcome R
    get_raw_node = bind (await (ask (LocalRequestMsg.get_raw_node tx))) read_raw_node

    -- There is no answer; only a node that has ended does not take the message.
    unfoldable pub leave_joint : Outcome (Unit {0})
    leave_joint = sent (ask LocalRequestMsg.leave_joint)
