-- ===== src/Node.antt =====
-- raftify/src/raft_node/mod.rs: the node's core.
pub mod Messages
pub mod State
pub mod Commit
pub mod Requests
pub mod Dispatch
pub mod Loop
pub mod Moves
pub mod Invariants
pub mod Answers
pub mod Order
pub mod Join
pub mod Joining
pub mod Waiting
pub mod Replication
pub mod Replicas
pub mod Members
pub mod Leaving
pub mod Panics
pub mod Stores
mod Examples
