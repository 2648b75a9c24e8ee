-- ===== src/Bootstrap/Examples.antt =====
-- The start of a node, at a concrete configuration.
use riteraft_ng.Exec
use riteraft_ng.HashMap
use riteraft_ng.Config
use riteraft_ng.Proto.{default_snapshot}
use riteraft_ng.Storage.Keys
use riteraft_ng.Storage.Ordered
use riteraft_ng.Storage.Heed
use riteraft_ng.Storage.Heed.Core as Disk
use riteraft_ng.Bootstrap
use riteraft_ng.Bootstrap.{bootstrap, lead, start, with_conf_state}
use riteraft_ng.Samples.Surroundings.{node_env, two_peers, empty_heed}

abbrev started : Disk.State Ordered.Pairs
started =
    (node_env.storage.apply_snapshot (with_conf_state two_peers.inner default_snapshot)
      empty_heed).1
