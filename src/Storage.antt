-- ===== src/Storage.antt =====
-- raftify/src/storage: the stores of the log.
pub mod Keys
pub mod Ordered
pub mod View
pub mod Spec
pub mod Heed
pub mod Rocks
pub mod Memory
pub mod Histories
mod Examples
