-- ===== src/Samples/Tables.antt =====
-- A node whose state machine is the example's: the leader, with a table of one entry.
use riteraft_ng.Prelude.{true, false, [], ◌∷◌}
use riteraft_ng.Storage.Ordered.{Pairs}
use riteraft_ng.Storage.Heed.Core as Disk
use riteraft_ng.Node.State.{Env, RaftNodeCore}
use riteraft_ng.Memstore.{HashStore, hash_store}
use riteraft_ng.Samples.Surroundings.{Raw, node, node_env}
use riteraft_ng.Samples.Texts.{hash_store_codec, log_entry_codec}

abbrev pub store_env : Env HashStore (Disk.State Pairs) Raw
store_env = record {
  storage = node_env.storage;
  fsm = hash_store log_entry_codec hash_store_codec;
  raft = node_env.raft;
  net = node_env.net;
  seq = node_env.seq;
  addrs = node_env.addrs;
  conf_change = node_env.conf_change;
  conf_change_v2 = node_env.conf_change_v2;
  inspect = node_env.inspect;
  dial = node_env.dial;
  call_send_message = node_env.call_send_message;
  call_change_config = node_env.call_change_config;
}

abbrev pub store_node : RaftNodeCore HashStore (Disk.State Pairs) Raw
store_node = record {
  raw_node = (node 1).raw_node;
  store = (node 1).store;
  fsm = (9, "z") ∷ [];
  peers = (node 1).peers;
  response_seq = 0;
  config = (node 1).config;
  raft_addr = (node 1).raft_addr;
  last_snapshot_created = 0;
  should_exit = false;
  response_senders = [];
  now = 0;
  receivers = λ tx. true;
  replies = [];
  spawned = [];
}
