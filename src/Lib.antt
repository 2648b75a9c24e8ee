-- ===== src/Lib.antt =====
-- raftify is a library that runs a Raft group over gRPC: a node (`raftify/src/raft_node/mod.rs`)
-- owns raft-rs's `RawNode`, a store, the user's state machine and the map of its peers. It takes
-- messages from three channels, handles each to the end, ticks raft-rs, and then works off what
-- raft-rs has ready: it sends messages, applies a snapshot, applies committed entries, and stores
-- entries and the hard state. Requests that wait for a commit are kept under a number that is the
-- entry's context; the commit of the entry answers them. The stores are one over LMDB (heed) and
-- one over RocksDB.
--
-- raft-rs is not in the repository (a submodule), so its `RawNode` is a record of operations,
-- with no law assumed, and so are the network, the state machine and the inspection. The
-- encodings (bincode, prost) are records with the law that what was encoded is decoded. The two
-- databases are one record of operations on keys in byte order, with the law of each; that a
-- write succeeds is a hypothesis where a theorem needs it, and an association list has all of the
-- laws. Whether a write transaction of LMDB begins and commits, and what the file system answers,
-- are parameters too, and that they do is a hypothesis where it is needed; that a read
-- transaction opens is assumed.
--
-- Where the parts are:
-- - Outcome, Exec: results with an error or a panic, and methods that change a state. What was
--   written before a failure stays.
-- - HashMap, Net, Proto: the maps, the socket addresses, and the messages of
--   `raftify/proto/eraftpb.proto`.
-- - Peers (`raftify/src/peers.rs`, `raftify/src/peer.rs`): `Peers.Peers` is the struct, with one
--   function per method; Peers.Iter is `SortedPeersIter`, Peers.Wire the conversions, Peers.Ids
--   the identifiers.
-- - ConfChange (`raftify/src/request/common/confchange_request.rs`): the forms of a membership
--   change.
-- - Config (`raftify/src/config/mod.rs`), Config.Builder (`raftify/src/config/config_builder.rs`)
--   and Bootstrap (`raftify/src/raft_bootstrapper.rs`, `RaftNodeCore::bootstrap`).
-- - Storage: Keys are the keys of entries; Ordered is the database; View and Spec are the
--   abstract log and what a reader of it is told; Heed is
--   `raftify/src/storage/heed_storage/mod.rs`, with Heed.Core for `HeedStorageCore` (the
--   operations inside a transaction), Heed.CompactedLogs for the file of compacted logs (with
--   `raftify/src/storage/utils.rs`) and Heed.Retries for a compaction that is tried again; Rocks
--   is `raftify/src/storage/rocksdb_storage/mod.rs`; Memory is
--   `raftify/src/storage/inmemory_storage/mod.rs`, over the `MemStorage` of raft-rs as a
--   parameter. Histories is the promise of the trait `StableStorage` on the log, which both
--   stores fill.
-- - Node: Messages are `raftify/src/request/` and `raftify/src/response/`; State is
--   `RaftNodeCore` and its surroundings; Commit, Requests, Dispatch and Loop are its methods;
--   Stores makes the two stores implementations of `StableStorage`. Moves proves once, for every
--   relation that the basic changes of the state respect, that all handlers respect it. A
--   relation may say how the handler ended; Moves.Plain is for those that do not. Invariants and
--   Waiting, which follows a request that waits, use it, and so do Replication and Replicas,
--   which say what becomes of the state machine. Answers and Join are about the messages and
--   their answers, Members, Leaving and Panics about committed changes of the membership, Joining
--   about the whole way of a join.
-- - Client (`RaftNode` in `raftify/src/raft_node/mod.rs`): each method is a function of `ask`,
--   which stands for the node at the other end of the channel, and Client.Reads is what it makes
--   of the answer. Client.Answers, Client.Kinds and Client.Mismatch put the node's handlers
--   there; Client.Forwarding puts the server of another node behind the calls.
-- - Server (`raftify/src/raft_server.rs`): what the gRPC methods make of the node's answers, and
--   `Raft::request_id`. Server.Methods are the methods from the message on; Server.Kinds and
--   Server.NoLeader put the node's handlers at the other end.
-- - Raft (`Raft::run` and `RaftNode::run`): the task of the node and that of the server, each by
--   how it ends; `raftify/src/utils/oneshot_mutex.rs` is the lock from which the node is taken
--   once.
-- - Memstore (`examples/memstore/src/state_machine.rs`): the state machine of the example;
--   Memstore.Nodes puts it into a node, and Memstore.Web is
--   `examples/memstore/src/web_server_api.rs`.
-- - Samples are concrete encodings and surroundings; the modules Examples hold the examples.
--
-- Conventions: numbers are natural numbers, and the wrap-around of u64 is written out. A one-shot
-- channel is its number; the state says which receivers are still there and lists what was sent.
-- A received message is handled to its end before the next, as the loop does; the loop runs on a
-- list of events, each with the time that goes by before it, so it needs no fuel. Time is
-- nanoseconds. The reading of a sorted iterator takes fuel, and as many steps as there are keys
-- are enough. The keys of the map of peers are unique where a theorem says so. Lines of the log
-- are not modelled.
--
-- Not modelled: the transport of gRPC and the connection of its client, reading the configuration
-- from a file, opening and closing a database, printing, the command line, the harness, the start
-- of the examples and the Python binding.
pub mod Prelude
pub mod HashMap
pub mod Outcome
pub mod Exec
pub mod Net
pub mod Peers
pub mod Proto
pub mod ConfChange
pub mod Config
pub mod Samples
pub mod Bootstrap
pub mod Node
pub mod Storage
pub mod Server
pub mod Client
pub mod Raft
pub mod Memstore
