-- ===== src/Node/Panics/Examples.antt =====
-- A committed change that stops a node, at a concrete node.
use riteraft_ng.Prelude.{ℕ, ◌≡◌, refl, inl, false, [], ◌∷◌}
use riteraft_ng.Outcome.{panic}
use riteraft_ng.Exec
use riteraft_ng.HashMap
use riteraft_ng.Peers
use riteraft_ng.Proto.{ConfChangeV2, Entry, entry_conf_change_v2, explicit, add_node, remove_node}
use riteraft_ng.Storage.Heed.CompactedLogs
use riteraft_ng.Storage.View
use riteraft_ng.Storage.Ordered
use riteraft_ng.Storage.Ordered.{Pairs}
use riteraft_ng.Storage.Keys
use riteraft_ng.Storage.Heed
use riteraft_ng.Storage.Heed.Core as Disk
use riteraft_ng.Node.Messages.{local}
use riteraft_ng.Node.State.{RaftNodeCore}
use riteraft_ng.Node.Commit
use riteraft_ng.Node.Panics.{committed_change-panics}
use riteraft_ng.Samples
use riteraft_ng.Samples.Strings
use riteraft_ng.Samples.{conf_change_v2_codec}
use riteraft_ng.Samples.Surroundings.{Raw, node, node_env, away}

-- Node 3 joins in place of node 2.
abbrev replacement : ConfChangeV2
replacement = record {
  transition = explicit;
  changes =
      record { change_type = add_node; node_id = 3 }
      ∷ record { change_type = remove_node; node_id = 2 }
      ∷ [];
  context = 1 ∷ 3 ∷ 1 ∷ 2 ∷ [];
}

abbrev committed : Entry
committed = record {
  entry_type = entry_conf_change_v2;
  term = 1;
  index = 4;
  data_ = conf_change_v2_codec.encode replacement;
  context = 0 ∷ [];
  sync_log = false;
}

-- The request under the number 0 waits.
abbrev waiting : RaftNodeCore ℕ (Disk.State Pairs) Raw
waiting = record (node 1) { response_seq = 1; response_senders = (0, local 7) ∷ [] }

abbrev entered : RaftNodeCore ℕ (Disk.State Pairs) Raw
entered =
    (Commit.apply_members node_env (record { ip = 1; port = 3 } ∷ away ∷ []) 0 replacement.changes
      waiting).1

abbrev applied : RaftNodeCore ℕ (Disk.State Pairs) Raw
applied = (Commit.apply_change node_env replacement committed entered).1

committed_change-panics_example :
    (Commit.handle_committed_config_change_entry node_env committed waiting).0 ≡ panic
unfolding HashMap.get HashMap.remove HashMap.insert Peers.add_peer Peers.new_peer Peers.remove
    Commit.make_snapshot Commit.apply_members Commit.decode_change Samples.changes Samples.addrs
    Heed.set_conf_state Heed.compact Heed.create_snapshot Heed.committed Disk.set_conf_state
    Disk.conf_state Disk.set_snapshot Disk.write_meta Disk.read_meta Disk.compact Disk.delete_below
    CompactedLogs.save_compacted_entries CompactedLogs.remove_large
    CompactedLogs.append_compacted_logs CompactedLogs.create_missing CompactedLogs.existing_data
    View.decode_pairs Exec.◌>>=◌ Ordered.lookup_pair Ordered.insert_pair Keys.lex_lt
    Samples.read_conf_state Samples.list Strings.parse_addr Strings.read
committed_change-panics_example =
    committed_change-panics node_env committed replacement (record { ip = 1; port = 3 } ∷ away ∷ [])
      0 (local 7) waiting entered applied refl refl refl refl refl refl refl (inl refl)
