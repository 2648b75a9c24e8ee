-- ===== src/Node/Leaving/Examples.antt =====
-- Committed removals, at a concrete node.
use riteraft_ng.Prelude.{ℕ, ◌≡◌, refl, true, false, [], ◌∷◌}
use riteraft_ng.Outcome.{ok}
use riteraft_ng.Exec
use riteraft_ng.HashMap
use riteraft_ng.Proto.{
  ConfChangeV2, Entry, entry_conf_change_v2, default_conf_change, default_conf_state, remove_node,
}
use riteraft_ng.Storage.Heed.CompactedLogs
use riteraft_ng.Storage.View
use riteraft_ng.Storage.Ordered
use riteraft_ng.Storage.Ordered.{Pairs}
use riteraft_ng.Storage.Keys
use riteraft_ng.Storage.Heed
use riteraft_ng.Storage.Heed.Core as Disk
use riteraft_ng.Node.Messages.{local, remove_success}
use riteraft_ng.Node.Answers.{config_change_reply}
use riteraft_ng.Node.State.{RaftNodeCore}
use riteraft_ng.Node.Commit
use riteraft_ng.Node.Leaving.{committed_removal-answers}
use riteraft_ng.Samples
use riteraft_ng.Samples.{conf_change_v2_codec}
use riteraft_ng.Samples.Surroundings.{Raw, node, node_env, two_peers, empty_heed}

-- Node 1 removes node 2 and itself.
abbrev leave : ConfChangeV2
leave = record default_conf_change {
  changes =
      record { change_type = remove_node; node_id = 1 }
      ∷ record { change_type = remove_node; node_id = 2 }
      ∷ [];
  context = [];
}

abbrev committed_leave : Entry
committed_leave = record {
  entry_type = entry_conf_change_v2;
  term = 1;
  index = 4;
  data_ = conf_change_v2_codec.encode leave;
  context = 0 ∷ [];
  sync_log = false;
}

-- The request under the number 0 waits.
abbrev waiting : RaftNodeCore ℕ (Disk.State Pairs) Raw
waiting = record (node 1) { response_seq = 1; response_senders = (0, local 7) ∷ [] }

abbrev with_conf_state : Disk.State Pairs
with_conf_state = (node_env.storage.set_conf_state default_conf_state empty_heed).1

abbrev compacted : Disk.State Pairs
compacted = (node_env.storage.compact 0 with_conf_state).1

abbrev with_snapshot : Disk.State Pairs
with_snapshot = (node_env.storage.create_snapshot (0 ∷ []) 4 1 compacted).1

committed_removal-answers_example :
    Commit.handle_committed_config_change_entry node_env committed_leave waiting ≡ (
      ok tt,
      record waiting {
        store = with_snapshot;
        should_exit = true;
        peers = record two_peers { inner = HashMap.remove 2 two_peers.inner };
        response_senders = [];
        replies = config_change_reply (local 7) remove_success ∷ [];
      },
    )
unfolding HashMap.get HashMap.remove HashMap.insert Commit.decode_change Samples.changes
    Samples.addrs Heed.set_conf_state Heed.compact Heed.create_snapshot Heed.committed
    Disk.set_conf_state Disk.conf_state Disk.set_snapshot Disk.write_meta Disk.read_meta
    Disk.compact Disk.delete_below CompactedLogs.save_compacted_entries CompactedLogs.remove_large
    CompactedLogs.append_compacted_logs CompactedLogs.create_missing CompactedLogs.existing_data
    View.decode_pairs Exec.◌>>=◌ Ordered.lookup_pair Ordered.insert_pair Keys.lex_lt
    Samples.read_conf_state Samples.list
committed_removal-answers_example =
    committed_removal-answers node_env committed_leave leave [] 0 (local 7) waiting
      (record { id = 1; leader_id = 1; applied = 0 }) default_conf_state with_conf_state compacted
      with_snapshot (0 ∷ []) 0 refl refl refl refl refl refl refl refl refl refl refl refl refl
