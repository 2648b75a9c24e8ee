-- ===== src/Node/State.antt =====
-- raftify/src/raft_node/mod.rs, raftify/src/storage/mod.rs and raftify/src/state_machine.rs: the
-- state of `RaftNodeCore`, and what it stands on: the store, the user's state machine, raft-rs's
-- `RawNode`, the encodings and the network.
use riteraft_ng.Prelude.{ℕ, String, Bool, true, false, Option, List, [], ◌∷◌, ◌++◌, ◌==◌}
use riteraft_ng.Outcome.{Outcome, ok, panic}
use riteraft_ng.Exec.{Exec, abort}
use riteraft_ng.HashMap.{HashMap}
use riteraft_ng.Net.{SocketAddr, Resolver}
use riteraft_ng.Peers.{Peers, TlsConfig}
use riteraft_ng.Config.{Config, RaftConfig}
use riteraft_ng.Proto.{
  Bytes, Codec, ConfChange, ConfChangeV2, ConfState, Entry, HardState, Message, Snapshot,
}
use riteraft_ng.ConfChange.{ChangeConfigArgs}
use riteraft_ng.Node.Messages.{
  ChangeConfigResultType, LocalResponseMsg, ResponseMessage, server_message, local_message,
  ResponseSender, local, server, ServerResponseMsg,
}

-- The trait `StableStorage`, with raft-rs's `last_index` and `snapshot`.
pub record StableStorage (S : Type 0) : Type 0 where
  pub append : List Entry → Exec S Unit
  pub hard_state : S → Outcome HardState
  pub set_hard_state : HardState → Exec S Unit
  pub set_hard_state_commit : ℕ → Exec S Unit
  pub conf_state : S → Outcome ConfState
  pub set_conf_state : ConfState → Exec S Unit
  pub create_snapshot : Bytes → ℕ → ℕ → Exec S Unit
  pub apply_snapshot : Snapshot → Exec S Unit
  pub compact : ℕ → Exec S Unit
  pub last_index : S → Outcome ℕ
  pub snapshot : S → Outcome Snapshot

-- The trait `AbstractStateMachine`.
pub record StateMachine (F : Type 0) : Type 0 where
  pub apply : Bytes → Exec F Bytes
  pub snapshot : Exec F Bytes
  pub restore : Bytes → Exec F Unit

-- raft-rs's `Ready` and `LightReady`.
pub record Ready : Type 0 where
  pub messages : List Message
  pub snapshot : Snapshot
  pub committed_entries : List Entry
  pub entries : List Entry
  pub hs : Option HardState
  pub persisted_messages : List Message

pub record LightReady : Type 0 where
  pub commit_index : Option ℕ
  pub messages : List Message
  pub committed_entries : List Entry

-- raft-rs's `RawNode`, whose store is an argument of what it computes. `is_default` compares a
-- snapshot with the default one.
pub record RawNode (S R : Type 0) : Type 0 where
  pub id : R → ℕ
  pub leader_id : R → ℕ
  pub has_pending_conf : R → Bool
  pub applied : R → ℕ
  pub cluster_size : R → ℕ
  pub propose : Bytes → Bytes → S → Exec R Unit
  pub propose_conf_change : Bytes → ConfChangeV2 → S → Exec R Unit
  pub apply_conf_change : ConfChangeV2 → S → Exec R ConfState
  pub step : Message → S → Exec R Unit
  pub campaign : S → Exec R Unit
  pub become_follower : ℕ → ℕ → S → R → R
  pub new : RaftConfig → S → Outcome R
  pub become_candidate : S → R → R
  pub become_leader : S → R → R
  pub validate : RaftConfig → Outcome (Unit {0})
  pub transfer_leader : ℕ → S → R → R
  pub report_unreachable : ℕ → S → R → R
  pub tick : S → R → R
  pub has_ready : S → R → Bool
  pub ready : S → R → Ready × R
  pub advance : Ready → S → R → LightReady × R
  pub advance_apply : S → R → R
  pub is_default : Snapshot → Bool

pub record Env (F S R : Type 0) : Type 0 where
  pub storage : StableStorage S
  pub fsm : StateMachine F
  pub raft : RawNode S R
  pub net : Resolver
  pub seq : Codec ℕ
  pub addrs : Codec (List SocketAddr)
  pub conf_change : Codec ConfChange
  pub conf_change_v2 : Codec ConfChangeV2
  pub inspect : S → R → Outcome String
  -- `create_client`, and the calls through a client.
  pub dial : SocketAddr → Option TlsConfig → Outcome ℕ
  pub call_send_message : ℕ → Message → Outcome (Unit {0})
  pub call_change_config : ℕ → ChangeConfigArgs → Outcome ChangeConfigResultType

-- What was put into a one-shot channel.
pub data Reply (F S R : Type 0) : Type 0 where
  to_local : (tx : ℕ) → LocalResponseMsg F S R → Reply F S R
  to_server : (tx : ℕ) → ServerResponseMsg → Reply F S R

-- `RaftNodeCore`. `now` is the clock; `receivers` says which one-shot receivers are still there;
-- `replies` and `spawned` are what was sent, the latest last: the answers, and the messages that
-- tasks carry to the other nodes.
pub record RaftNodeCore (F S R : Type 0) : Type 0 where
  pub raw_node : R
  pub store : S
  pub fsm : F
  pub peers : Peers
  pub response_seq : ℕ
  pub config : Config
  pub raft_addr : SocketAddr
  pub last_snapshot_created : ℕ
  pub should_exit : Bool
  pub response_senders : HashMap ResponseSender
  pub now : ℕ
  pub receivers : ℕ → Bool
  pub replies : List (Reply F S R)
  pub spawned : List Message

module _ {F S R : Type 0} where
  abbrev pub on_store : {A : Type 0} → Exec S A → Exec (RaftNodeCore F S R) A
  on_store m s = let (r, t) = m s.store in (r, record s { store = t })

  abbrev pub on_fsm : {A : Type 0} → Exec F A → Exec (RaftNodeCore F S R) A
  on_fsm m s = let (r, t) = m s.fsm in (r, record s { fsm = t })

  abbrev pub on_raft : {A : Type 0} → (S → Exec R A) → Exec (RaftNodeCore F S R) A
  on_raft m s = let (r, t) = m s.store s.raw_node in (r, record s { raw_node = t })

  abbrev pub change_raft : (S → R → R) → Exec (RaftNodeCore F S R) Unit
  change_raft f s = (ok tt, record s { raw_node = f s.store s.raw_node })

  abbrev pub post : Bool → Reply F S R → Exec (RaftNodeCore F S R) Unit
  post true r s = (ok tt, record s { replies = s.replies ++ r ∷ [] })
  post false r s = (panic, s)

  -- `tx.send(…).unwrap()`, which panics when the receiver was dropped.
  abbrev pub send_local : ℕ → LocalResponseMsg F S R → Exec (RaftNodeCore F S R) Unit
  send_local tx m s = post (s.receivers tx) (to_local tx m) s

  abbrev pub send_server : ℕ → ServerResponseMsg → Exec (RaftNodeCore F S R) Unit
  send_server tx m s = post (s.receivers tx) (to_server tx m) s

  -- ResponseSender::send
  abbrev pub send : ResponseSender → ResponseMessage F S R → Exec (RaftNodeCore F S R) Unit
  send (local tx) (local_message m) = send_local tx m
  send (local tx) (server_message m) = abort
  send (server tx) (server_message m) = send_server tx m
  send (server tx) (local_message m) = abort

module _ {F S R : Type 0} (env : Env F S R) where
  abbrev pub get_id : RaftNodeCore F S R → ℕ
  get_id s = env.raft.id s.raw_node

  abbrev pub get_leader_id : RaftNodeCore F S R → ℕ
  get_leader_id s = env.raft.leader_id s.raw_node

  abbrev pub is_leader : RaftNodeCore F S R → Bool
  is_leader s = env.raft.leader_id s.raw_node == env.raft.id s.raw_node
