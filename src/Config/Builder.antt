-- ===== src/Config/Builder.antt =====
-- raftify/src/config/config_builder.rs: the builder of a configuration. Floating-point seconds stand
-- as in Config.
pub mod Tls
use riteraft_ng.Prelude.{ℕ, String, Bool, Option, none, some}
use riteraft_ng.HashMap
use riteraft_ng.Peers
use riteraft_ng.Peers.{Peer, Peers, TlsConfig}
use riteraft_ng.Config.{Config, RaftConfig, default}

pub record ConfigBuilder : Type 0 where
  pub config : Config
  pub global_client_tls_config_ : Option TlsConfig

-- Around raft-rs's default.
abbrev pub new : RaftConfig → ConfigBuilder
new r = record { config = default r; global_client_tls_config_ = none }

abbrev pub from_config : Config → ConfigBuilder
from_config config = record { config = config; global_client_tls_config_ = none }

abbrev set_config : ConfigBuilder → Config → ConfigBuilder
set_config b config = record b { config = config }

abbrev pub log_dir : String → ConfigBuilder → ConfigBuilder
log_dir dir b = set_config b (record b.config { log_dir = dir })

abbrev pub save_compacted_logs : Bool → ConfigBuilder → ConfigBuilder
save_compacted_logs save b = set_config b (record b.config { save_compacted_logs = save })

abbrev pub compacted_log_dir : String → ConfigBuilder → ConfigBuilder
compacted_log_dir dir b = set_config b (record b.config { compacted_log_dir = dir })

abbrev pub compacted_log_size_threshold : ℕ → ConfigBuilder → ConfigBuilder
compacted_log_size_threshold threshold b =
    set_config b (record b.config { compacted_log_size_threshold = threshold })

abbrev pub raft_config : RaftConfig → ConfigBuilder → ConfigBuilder
raft_config r b = set_config b (record b.config { raft_config = r })

abbrev pub set_node_id : ℕ → ConfigBuilder → ConfigBuilder
set_node_id node_id b =
    set_config b (record b.config { raft_config = record b.config.raft_config { id = node_id } })

abbrev pub tick_interval : ℕ → ConfigBuilder → ConfigBuilder
tick_interval interval b = set_config b (record b.config { tick_interval = interval })

abbrev pub lmdb_map_size : ℕ → ConfigBuilder → ConfigBuilder
lmdb_map_size size b = set_config b (record b.config { lmdb_map_size = size })

abbrev pub cluster_id : String → ConfigBuilder → ConfigBuilder
cluster_id id b = set_config b (record b.config { cluster_id = id })

abbrev pub conf_change_request_timeout : ℕ → ConfigBuilder → ConfigBuilder
conf_change_request_timeout timeout b =
    set_config b (record b.config { conf_change_request_timeout = timeout })

abbrev pub initial_peers : Peers → ConfigBuilder → ConfigBuilder
initial_peers peers b = set_config b (record b.config { initial_peers = some peers })

abbrev pub snapshot_interval : ℕ → ConfigBuilder → ConfigBuilder
snapshot_interval interval b = set_config b (record b.config { snapshot_interval = some interval })

abbrev pub server_tls_config : TlsConfig → ConfigBuilder → ConfigBuilder
server_tls_config tls b = set_config b (record b.config { server_tls_config = some tls })

abbrev pub bootstrap_from_snapshot : Bool → ConfigBuilder → ConfigBuilder
bootstrap_from_snapshot v b = set_config b (record b.config { bootstrap_from_snapshot = v })

abbrev pub global_client_tls_config : TlsConfig → ConfigBuilder → ConfigBuilder
global_client_tls_config tls b = record b { global_client_tls_config_ = some tls }

-- The node's own settings go to the configuration, and the global ones to a node without.
abbrev own_settings : Option TlsConfig → ℕ → Peer → Option TlsConfig → Peers → Config → Config
own_settings none id self_peer global peers config = record config {
  initial_peers = some (record peers {
    inner = HashMap.insert id (record self_peer { client_tls_config = global }) peers.inner;
  });
}
own_settings (some tls) id self_peer global peers config = record config {
  client_tls_config = some tls;
  initial_peers = some peers;
}

abbrev with_self : Option Peer → Option TlsConfig → Peers → Config → Config
with_self none global peers config = record config { initial_peers = some peers }
with_self (some self_peer) global peers config =
    own_settings self_peer.client_tls_config config.raft_config.id self_peer global peers config

abbrev with_peers : Option Peers → Option TlsConfig → Config → Config
with_peers none global config = config
with_peers (some peers) global config =
    with_self (Peers.get config.raft_config.id peers) global peers config

unfoldable pub build : ConfigBuilder → Config
build b =
    with_peers b.config.initial_peers b.global_client_tls_config_
      (record b.config { client_tls_config = b.global_client_tls_config_ })
