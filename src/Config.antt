-- ===== src/Config.antt =====
-- raftify/src/config/mod.rs: the configuration and its validation. Floating-point seconds stand as
-- a number of nanoseconds, as in the `Duration` that the code makes of them. raft-rs's own
-- configuration keeps the two fields that the crate reads; `rest` is the others.
pub mod Builder
use riteraft_ng.Prelude.{
  ℕ, ◌*◌, String, Bool, true, false, Option, none, some, List, [], ◌∷◌, ltb, if◌then◌else◌, length,
}
use riteraft_ng.Outcome.{Outcome, err, config_invalid}
use riteraft_ng.HashMap.{HashMap}
use riteraft_ng.Peers.{InitialRole, leader, Peer, Peers, TlsConfig}

pub record RaftConfig : Type 0 where
  pub id : ℕ
  pub omit_heartbeat_log : Bool
  pub rest : List ℕ

pub record Config : Type 0 where
  pub raft_config : RaftConfig
  pub log_dir : String
  pub save_compacted_logs : Bool
  pub compacted_log_dir : String
  pub compacted_log_size_threshold : ℕ
  pub tick_interval : ℕ
  pub lmdb_map_size : ℕ
  pub bootstrap_from_snapshot : Bool
  pub cluster_id : String
  pub conf_change_request_timeout : ℕ
  pub initial_peers : Option Peers
  pub snapshot_interval : Option ℕ
  pub client_tls_config : Option TlsConfig
  pub server_tls_config : Option TlsConfig

-- `Config::default`, around raft-rs's default.
abbrev pub default : RaftConfig → Config
default r = record {
  raft_config = r;
  log_dir = "./";
  save_compacted_logs = false;
  compacted_log_dir = "./";
  compacted_log_size_threshold = 1024 * 1024 * 1024;
  tick_interval = 100000000;
  lmdb_map_size = 1024 * 1024 * 1024;
  bootstrap_from_snapshot = false;
  cluster_id = "default";
  conf_change_request_timeout = 2000000000;
  initial_peers = none;
  snapshot_interval = none;
  client_tls_config = none;
  server_tls_config = none;
}

abbrev pub is_leader : InitialRole → Bool
is_leader leader = true
is_leader _ = false

-- The keys of the peers whose role passes the test, in the map's order.
unfoldable pub with_role : (InitialRole → Bool) → HashMap Peer → List ℕ
with_role p [] = []
with_role p ((k, v) ∷ m) = if p v.initial_role then k ∷ with_role p m else with_role p m

-- `raft_validate` is raft-rs's `Config::validate`.
unfoldable pub validate : (RaftConfig → Outcome (Unit {0})) → Config → Outcome (Unit {0})
unfolding with_role
validate raft_validate c = elim c.initial_peers [
  | none ↦ raft_validate c.raft_config
  | some peers ↦
      if ltb 1 (length (with_role is_leader peers.inner))
      then err (config_invalid "initial_peers should contain at most 1 leaders")
      else raft_validate c.raft_config
]
