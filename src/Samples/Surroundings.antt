-- ===== src/Samples/Surroundings.antt =====
-- The stores over an association list, a counting state machine, and a node that stands for
-- raft-rs's: it takes every proposal, and has nothing ready.
use riteraft_ng.Prelude.{
  ℕ, ◌+◌, refl, true, false, ◌&&◌, none, some, [], ◌∷◌, ◌==◌, length, is_empty,
}
use riteraft_ng.Outcome.{ok}
use riteraft_ng.Config.{Config, default}
use riteraft_ng.Net.{SocketAddr}
use riteraft_ng.Peers.{Peers, leader, learner, peer_at}
use riteraft_ng.Proto.{default_conf_state, default_snapshot, Entry, entry_normal}
use riteraft_ng.Storage.Ordered.{Pairs, list_db, list_db-IsReliable}
use riteraft_ng.Storage.Heed.CompactedLogs.{
  File, Files, IsWorking, Metadata, missing, logs, unreadable, not_found, size,
}
use riteraft_ng.Storage.Heed.Core as Heed
use riteraft_ng.Storage.Rocks
use riteraft_ng.Node.Messages.{change_config_success}
use riteraft_ng.Node.State.{Env, RaftNodeCore, StateMachine, RawNode}
use riteraft_ng.Node.Stores.{heed_store}
use riteraft_ng.Samples.{
  addrs_codec, conf_change_codec, conf_change_v2_codec, conf_state_codec, entry_codec,
  hard_state_codec, number_codec, snapshot_codec, resolver,
}

-- A file system in which nothing fails; a file has the size of the number of its batches.
abbrev file_metadata : File → Metadata
file_metadata missing = not_found
file_metadata (logs batches) = size (length batches)
file_metadata unreadable = size 0

abbrev pub working_files : Files
working_files = record {
  metadata = file_metadata;
  remove_file = λ file. true;
  create = true;
  read = λ file. true;
  write_logs = λ batches file. (ok tt, logs batches);
}

pub working_files-IsWorking : IsWorking working_files length
working_files-IsWorking = record {
  metadata_missing = refl;
  metadata_logs = λ b. refl;
  remove_ok = λ file. refl;
  create_ok = refl;
  read_ok = λ file. refl;
  write_ok = λ b file. refl;
}

abbrev pub heed_env : Heed.Env Pairs
heed_env = record {
  db = list_db;
  entry = entry_codec;
  hard_state = hard_state_codec;
  conf_state = conf_state_codec;
  snapshot = snapshot_codec;
  number = number_codec;
  write_txn = λ d. true;
  commit = λ d. true;
  files = working_files;
  save_compacted_logs = true;
  compacted_log_size_threshold = 100;
  fatal_aborts = false;
  limit_size = λ m es. es;
  limit_size_none = λ es. refl;
}

pub heed_env-IsWritable : Heed.IsWritable heed_env
heed_env-IsWritable = record { db = list_db-IsReliable; begins = λ d. refl; commits = λ d. refl }

abbrev pub rocks_env : Rocks.Env Pairs
rocks_env = record {
  db = list_db;
  entry = entry_codec;
  hard_state = hard_state_codec;
  conf_state = conf_state_codec;
  snapshot = snapshot_codec;
  fatal_aborts = false;
  limit_size = λ m es. es;
  limit_size_none = λ es. refl;
}

abbrev pub empty_heed : Heed.State Pairs
empty_heed = record {
  disk = record { entries_db = []; metadata_db = [] };
  compacted_logs = missing;
}

abbrev pub empty_rocks : Rocks.State Pairs
empty_rocks = record { log_entries = []; meta_data = [] }

-- The entry with an index and a byte of data.
abbrev pub entry : ℕ → ℕ → Entry
entry i d = record {
  entry_type = entry_normal;
  term = 1;
  index = i;
  data_ = d ∷ [];
  context = 0 ∷ [];
  sync_log = false;
}

-- raft-rs's node, reduced to what it answers.
pub record Raw : Type 0 where
  pub id : ℕ
  pub leader_id : ℕ
  pub applied : ℕ

abbrev pub counter : StateMachine ℕ
counter = record {
  apply = λ bytes n. (ok [], n + length bytes);
  snapshot = λ n. (ok (n ∷ []), n);
  restore = λ bytes n. (ok tt, length bytes);
}

abbrev pub raw_node : {S : Type 0} → RawNode S Raw
raw_node = record {
  id = λ r. r.id;
  leader_id = λ r. r.leader_id;
  has_pending_conf = λ r. false;
  applied = λ r. r.applied;
  cluster_size = λ r. 1;
  propose = λ c d s r. (ok tt, r);
  propose_conf_change = λ c v s r. (ok tt, r);
  apply_conf_change = λ v s r. (ok default_conf_state, r);
  step = λ m s r. (ok tt, r);
  campaign = λ s r. (ok tt, r);
  become_follower = λ t l s r. record r { leader_id = l };
  new = λ c s. ok (record { id = c.id; leader_id = 0; applied = 0 });
  become_candidate = λ s r. r;
  become_leader = λ s r. record r { leader_id = r.id };
  validate = λ c. ok tt;
  transfer_leader = λ n s r. r;
  report_unreachable = λ n s r. r;
  tick = λ s r. r;
  has_ready = λ s r. false;
  ready = λ s r. (
    record {
      messages = [];
      snapshot = default_snapshot;
      committed_entries = [];
      entries = [];
      hs = none;
      persisted_messages = [];
    },
    r,
  );
  advance = λ x s r. (record { commit_index = none; messages = []; committed_entries = [] }, r);
  advance_apply = λ s r. r;
  is_default = λ x. is_empty x.data_ && x.metadata.index == 0;
}

abbrev pub node_env : Env ℕ (Heed.State Pairs) Raw
node_env = record {
  storage = heed_store heed_env;
  fsm = counter;
  raft = raw_node;
  net = resolver;
  seq = number_codec;
  addrs = addrs_codec;
  conf_change = conf_change_codec;
  conf_change_v2 = conf_change_v2_codec;
  inspect = λ s r. ok "";
  dial = λ a tls. ok 0;
  call_send_message = λ c m. ok tt;
  call_change_config = λ c m. ok change_config_success;
}

abbrev pub home : SocketAddr
home = record { ip = 1; port = 1 }

abbrev pub away : SocketAddr
away = record { ip = 1; port = 2 }

abbrev pub two_peers : Peers
two_peers = record {
  inner = (1, peer_at home leader none) ∷ (2, peer_at away learner none) ∷ [];
  client_tls_config = none;
}

abbrev pub config : Config
config = record (default (record { id = 1; omit_heartbeat_log = false; rest = [] })) {
  initial_peers = some two_peers;
}

-- Node 1, which follows the given leader.
abbrev pub node : ℕ → RaftNodeCore ℕ (Heed.State Pairs) Raw
node l = record {
  raw_node = record { id = 1; leader_id = l; applied = 0 };
  store = empty_heed;
  fsm = 0;
  peers = two_peers;
  response_seq = 0;
  config = config;
  raft_addr = home;
  last_snapshot_created = 0;
  should_exit = false;
  response_senders = [];
  now = 0;
  receivers = λ tx. true;
  replies = [];
  spawned = [];
}
