-- ===== src/Memstore/Nodes/Examples.antt =====
-- Two committed entries, at a concrete node with the example's state machine.
use riteraft_ng.Prelude.{◌≡◌, refl, List, [], ◌∷◌}
use riteraft_ng.Exec
use riteraft_ng.HashMap
use riteraft_ng.Proto.{Entry}
use riteraft_ng.Storage.Ordered.{Pairs}
use riteraft_ng.Storage.Heed.Core as Disk
use riteraft_ng.Node.State.{RaftNodeCore}
use riteraft_ng.Node.Commit
use riteraft_ng.Node.Commit.{handle_committed_entries}
use riteraft_ng.Node.Replication.{commands}
use riteraft_ng.Memstore
use riteraft_ng.Memstore.{HashStore, LogEntry, insert, hash_store}
use riteraft_ng.Memstore.Replay.{last_value}
use riteraft_ng.Memstore.Nodes.{handle_committed_entries-last_value}
use riteraft_ng.Samples.Surroundings.{Raw, entry}
use riteraft_ng.Samples.Texts
use riteraft_ng.Samples.Tables.{store_env, store_node}
use riteraft_ng.Samples.Texts.{hash_store_codec, log_entry_codec}

abbrev cs : List LogEntry
cs = insert 1 "a" ∷ insert 1 "b" ∷ []

abbrev committed : LogEntry → Entry
committed c = record (entry 1 0) { data_ = log_entry_codec.encode c }

abbrev entries : List Entry
entries = committed (insert 1 "a") ∷ committed (insert 1 "b") ∷ []

abbrev handled : RaftNodeCore HashStore (Disk.State Pairs) Raw
handled = (handle_committed_entries store_env entries store_node).1

handle_committed_entries-last_value_example :
    Memstore.get 1 handled.fsm ≡ last_value 1 cs (Memstore.get 1 store_node.fsm)
unfolding Texts.read_text Texts.char_of Texts.scalar Commit.handle_committed_entries
    Commit.handle_committed_normal_entry Commit.take_sender Exec.◌>>=◌ HashMap.get HashMap.remove
    commands Memstore.apply
handle_committed_entries-last_value_example =
    handle_committed_entries-last_value log_entry_codec hash_store_codec store_env entries cs
      store_node handled 1 refl refl refl
