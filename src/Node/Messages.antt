-- ===== src/Node/Messages.antt =====
-- raftify/src/request/, raftify/src/response/ and raftify/src/raft_node/response_sender.rs: what
-- the parts send one another. A one-shot channel is its number. `F`, `S` and `R` are the state
-- machine, the store and raft-rs's node.
use riteraft_ng.Prelude.{ℕ, String, Bool, Option, List}
use riteraft_ng.Outcome.{Error}
use riteraft_ng.HashMap.{HashMap}
use riteraft_ng.Net.{SocketAddr}
use riteraft_ng.Peers.{InitialRole, Peers}
use riteraft_ng.Proto.{Bytes, Message}
use riteraft_ng.ConfChange.{ConfChangeRequest}

pub data ResponseResult : Type 0 where
  success : ResponseResult
  error : Error → ResponseResult
  wrong_leader : (leader_id : ℕ) (leader_addr : String) → ResponseResult

pub data ConfChangeResponseResult : Type 0 where
  join_success : (assigned_ids : List ℕ) (peers : Peers) → ConfChangeResponseResult
  remove_success : ConfChangeResponseResult
  error : Error → ConfChangeResponseResult
  wrong_leader : (leader_id : ℕ) (leader_addr : String) → ConfChangeResponseResult

pub data RequestIdResponseResult : Type 0 where
  success : (reserved_id leader_id : ℕ) (peers : Peers) → RequestIdResponseResult
  error : Error → RequestIdResponseResult
  wrong_leader : (leader_id : ℕ) (leader_addr : String) → RequestIdResponseResult

pub data ServerResponseMsg : Type 0 where
  report_unreachable : ResponseResult → ServerResponseMsg
  debug_node : String → ServerResponseMsg
  get_peers : Peers → ServerResponseMsg
  set_peers create_snapshot leave_joint join_cluster : ServerResponseMsg
  send_message propose : ResponseResult → ServerResponseMsg
  config_change : ConfChangeResponseResult → ServerResponseMsg
  request_id : RequestIdResponseResult → ServerResponseMsg

pub data LocalResponseMsg (F S R : Type 0) : Type 0 where
  is_leader : Bool → LocalResponseMsg F S R
  get_id get_leader_id get_cluster_size : ℕ → LocalResponseMsg F S R
  get_peers : Peers → LocalResponseMsg F S R
  get_state_machine : F → LocalResponseMsg F S R
  get_storage : S → LocalResponseMsg F S R
  get_raw_node : R → LocalResponseMsg F S R
  debug_node : String → LocalResponseMsg F S R
  add_peer add_peers quit campaign make_snapshot join_cluster : LocalResponseMsg F S R
  send_message demote transfer_leader : LocalResponseMsg F S R
  propose : ResponseResult → LocalResponseMsg F S R
  config_change : ConfChangeResponseResult → LocalResponseMsg F S R

pub data ResponseMessage (F S R : Type 0) : Type 0 where
  server_message : ServerResponseMsg → ResponseMessage F S R
  local_message : LocalResponseMsg F S R → ResponseMessage F S R

pub data ResponseSender : Type 0 where
  local server : (tx : ℕ) → ResponseSender

pub record ClusterJoinTicket : Type 0 where
  pub reserved_id : ℕ
  pub raft_addr : String
  pub leader_addr : String
  pub peers : HashMap SocketAddr

pub data LocalRequestMsg : Type 0 where
  is_leader get_id get_leader_id get_peers : (tx_msg : ℕ) → LocalRequestMsg
  add_peer : (id : ℕ) (addr : String) (role : Option InitialRole) (tx_msg : ℕ) → LocalRequestMsg
  add_peers : (peers : HashMap SocketAddr) (tx_msg : ℕ) → LocalRequestMsg
  debug_node get_state_machine get_storage get_cluster_size : (tx_msg : ℕ) → LocalRequestMsg
  quit campaign leave get_raw_node : (tx_msg : ℕ) → LocalRequestMsg
  demote : (term leader_id tx_msg : ℕ) → LocalRequestMsg
  transfer_leader : (node_id tx_msg : ℕ) → LocalRequestMsg
  make_snapshot : (index term tx_msg : ℕ) → LocalRequestMsg
  propose : (proposal : Bytes) (tx_msg : ℕ) → LocalRequestMsg
  change_config : (conf_change : ConfChangeRequest) (tx_msg : ℕ) → LocalRequestMsg
  send_message : (message : Message) (tx_msg : ℕ) → LocalRequestMsg
  join_cluster : (tickets : List ClusterJoinTicket) (tx_msg : ℕ) → LocalRequestMsg
  leave_joint : LocalRequestMsg

pub data SelfMessage : Type 0 where
  report_unreachable : (node_id : ℕ) → SelfMessage

-- Without the phantom variants, which no code builds.
pub data ServerRequestMsg : Type 0 where
  request_id : (raft_addr : String) (tx_msg : ℕ) → ServerRequestMsg
  propose : (proposal : Bytes) (tx_msg : ℕ) → ServerRequestMsg
  change_config : (conf_change : ConfChangeRequest) (tx_msg : ℕ) → ServerRequestMsg
  debug_node get_peers leave_joint create_snapshot : (tx_msg : ℕ) → ServerRequestMsg
  send_message : (message : Message) → ServerRequestMsg
  set_peers : (peers : Peers) (tx_msg : ℕ) → ServerRequestMsg

-- raft_service::ChangeConfigResultType
pub data ChangeConfigResultType : Type 0 where
  change_config_success change_config_unknown_error change_config_rejected : ChangeConfigResultType
  change_config_timeout_error change_config_wrong_leader : ChangeConfigResultType
