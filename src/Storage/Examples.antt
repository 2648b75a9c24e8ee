-- ===== src/Storage/Examples.antt =====
-- The theorems on the two stores, each at a concrete store.
use riteraft_ng.Prelude.{◌<◌, ◌≡◌, refl, true, none, List, [], ◌∷◌, arith, length}
use riteraft_ng.Outcome.{ok, err, database}
use riteraft_ng.Proto.{Entry, Snapshot, default_hard_state, default_snapshot, default_conf_state}
use riteraft_ng.Storage.Ordered
use riteraft_ng.Storage.Ordered.{Pairs, list_db, list_db-IsReliable}
use riteraft_ng.Storage.Keys
use riteraft_ng.Storage.Keys.{to_string, entry_key, parse, lex_lt}
use riteraft_ng.Storage.Keys.Order.{lex_lt_breaks, lex_lt-entry_key}
use riteraft_ng.Storage.View
use riteraft_ng.Storage.View.{encode_entries, put_entries, AreSmall}
use riteraft_ng.Exec
use riteraft_ng.Storage.Heed.CompactedLogs
use riteraft_ng.Storage.Heed.CompactedLogs.{missing, logs}
use riteraft_ng.Storage.Heed
use riteraft_ng.Storage.Heed.Core
use riteraft_ng.Storage.Heed.Log
use riteraft_ng.Storage.Heed.Log.{first_index-cons, greatest, append_lem}
use riteraft_ng.Storage.Heed.Reads.{entries_lem, term_lem}
use riteraft_ng.Storage.Heed.Compaction.{compact_lem}
use riteraft_ng.Storage.Heed.Retries.{compact-retried, full}
use riteraft_ng.Storage.Heed.Snapshots.{set_hard_state_commit_lost, apply_snapshot_lem}
use riteraft_ng.Storage.Rocks
use riteraft_ng.Storage.Rocks.Reads
use riteraft_ng.Storage.Rocks.Reads.{entries-read_entries, term-read_term}
use riteraft_ng.Storage.Rocks.Writes.{append-put_entries, apply_snapshot-stores}
use riteraft_ng.Storage.Heed.Log.{greatest}
use riteraft_ng.Storage.Histories
use riteraft_ng.Storage.Histories.{all_written, Write, appends, compacts, write_all, written}
use riteraft_ng.Storage.Histories.Stores.{stores-agree}
use riteraft_ng.Node.Stores.{heed_store, rocks_store}
use riteraft_ng.Samples.{entry_codec}
use riteraft_ng.Samples.Surroundings.{
  heed_env, heed_env-IsWritable, rocks_env, entry, working_files-IsWorking,
}

abbrev log : List Entry
log = entry 5 1 ∷ entry 6 2 ∷ []

abbrev heed : Core.State Pairs
heed = record {
  disk = record {
    entries_db = encode_entries entry_codec log;
    metadata_db = (Core.last_index_key, 6 ∷ []) ∷ [];
  };
  compacted_logs = missing;
}

abbrev rocks : Rocks.State Pairs
rocks = record {
  log_entries = encode_entries entry_codec log;
  meta_data = (Core.last_index_key, 54 ∷ []) ∷ [];
}

small : AreSmall log
small = (omega arith, (omega arith, tt))

heed-Holds : Log.Holds heed_env log heed
heed-Holds = record { log = refl; small = small }

rocks-Holds : Reads.Holds rocks_env log rocks
rocks-Holds = record { log = refl; small = small }

append_lem_example :
    (t : Core.State Pairs) × (Heed.append heed_env (entry 6 9 ∷ entry 7 3 ∷ []) heed ≡ (ok tt, t))
    × Log.Holds heed_env (put_entries (entry 6 9 ∷ entry 7 3 ∷ []) log) t
    × (Core.last_index heed_env t ≡ ok 7)
    × (Core.hard_state heed_env t ≡ ok default_hard_state)
    × (Core.conf_state heed_env t ≡ ok default_conf_state)
    × (Core.snapshot heed_env t ≡ ok default_snapshot)
    × (t.compacted_logs ≡ missing)
unfolding Core.first_index Core.last_index Core.hard_state Core.conf_state Core.snapshot
    Core.read_meta Ordered.lookup_pair Keys.lex_lt encode_entries entry_key greatest
append_lem_example =
    append_lem heed_env heed_env-IsWritable (entry 6 9) (entry 7 3 ∷ []) log heed 5 6
      (omega arith, (omega arith, tt)) heed-Holds
      (first_index-cons heed_env (entry 5 1) (entry 6 2 ∷ []) heed heed-Holds) refl (omega arith)
      (omega arith)

entries_lem_example : Heed.entries heed_env 6 8 none heed ≡ ok (entry 6 2 ∷ [])
entries_lem_example =
    entries_lem heed_env 6 8 5 log heed heed-Holds
      (first_index-cons heed_env (entry 5 1) (entry 6 2 ∷ []) heed heed-Holds) (omega arith)
      (omega arith)

term_lem_example : Heed.term heed_env 6 heed ≡ ok 1
unfolding Core.snapshot Core.read_meta Ordered.lookup_pair Keys.lex_lt View.entry_at
term_lem_example =
    term_lem heed_env 6 5 default_snapshot log heed heed-Holds
      (first_index-cons heed_env (entry 5 1) (entry 6 2 ∷ []) heed heed-Holds) refl (omega arith)

compact_lem_example :
    (t : Core.State Pairs) × (Heed.compact heed_env 6 heed ≡ (ok tt, t))
    × Log.Holds heed_env (entry 6 2 ∷ []) t
    × (t.disk.metadata_db ≡ heed.disk.metadata_db)
    × (t.compacted_logs ≡ logs ((entry 5 1 ∷ []) ∷ []))
unfolding CompactedLogs.save_compacted_entries CompactedLogs.remove_large
    CompactedLogs.append_compacted_logs CompactedLogs.create_missing CompactedLogs.existing_data
    Exec.◌>>=◌
compact_lem_example = compact_lem heed_env heed_env-IsWritable 6 log heed (omega arith) heed-Holds

compact-retried_example :
    (t u : Core.State Pairs) × (Heed.compact (full heed_env length) 6 heed ≡ (err database, t))
    × (t.disk ≡ heed.disk)
    × (Heed.compact heed_env 6 t ≡ (ok tt, u))
    × Log.Holds heed_env (entry 6 2 ∷ []) u
    × (u.compacted_logs ≡ logs ((entry 5 1 ∷ []) ∷ (entry 5 1 ∷ []) ∷ []))
compact-retried_example =
    compact-retried heed_env length heed_env-IsWritable working_files-IsWorking refl 6 log heed
      (omega arith) heed-Holds tt

abbrev full_snapshot : Snapshot
full_snapshot = record {
  data_ = 7 ∷ [];
  metadata = record { conf_state = default_conf_state; index = 9; term = 3 };
}

set_hard_state_commit_lost_example : Heed.set_hard_state_commit heed_env 4 heed ≡ (ok tt, heed)
unfolding Heed.hard_state Core.hard_state Core.read_meta Ordered.lookup_pair Keys.lex_lt
set_hard_state_commit_lost_example =
    set_hard_state_commit_lost heed_env heed_env-IsWritable 4 heed default_hard_state refl

apply_snapshot_lem_example :
    (t : Core.State Pairs) × (Heed.apply_snapshot heed_env full_snapshot heed ≡ (ok tt, t))
    × (Heed.hard_state heed_env t ≡ ok (record { term = 3; vote = 0; commit = 9 }))
    × (Heed.conf_state heed_env t ≡ ok default_conf_state)
    × (Heed.last_index heed_env t ≡ ok 9)
    × (Heed.snapshot heed_env 0 0 t ≡ ok full_snapshot)
    × (t.disk.entries_db ≡ heed.disk.entries_db)
unfolding Heed.hard_state Core.hard_state Core.read_meta Ordered.lookup_pair Keys.lex_lt
apply_snapshot_lem_example =
    apply_snapshot_lem heed_env heed_env-IsWritable full_snapshot heed default_hard_state refl

rocks-last_index : Rocks.last_index rocks_env rocks ≡ ok 6
unfolding Rocks.last_index Ordered.lookup_pair Keys.lex_lt Keys.parse Keys.parse_digits
rocks-last_index = refl

rocks-first_index : Rocks.first_index rocks_env rocks ≡ ok 5
rocks-first_index = Reads.first_index-cons rocks_env (entry 5 1) (entry 6 2 ∷ []) rocks rocks-Holds

append-put_entries_example :
    (t : Rocks.State Pairs) × (Rocks.append rocks_env (entry 6 9 ∷ entry 7 3 ∷ []) rocks
      ≡ (ok tt, t))
    × Reads.Holds rocks_env (put_entries (entry 6 9 ∷ entry 7 3 ∷ []) log) t
    × (Rocks.last_index rocks_env t ≡ ok 7)
unfolding greatest
append-put_entries_example =
    append-put_entries rocks_env list_db-IsReliable (entry 6 9) (entry 7 3 ∷ []) log rocks 6
      (omega arith, (omega arith, tt)) rocks-Holds rocks-last_index (omega arith) (omega arith)

apply_snapshot-stores_example :
    (t : Rocks.State Pairs) × (Rocks.apply_snapshot rocks_env full_snapshot rocks ≡ (ok tt, t))
    × (Rocks.hard_state rocks_env t ≡ ok (record { term = 3; vote = 0; commit = 9 }))
    × (Rocks.conf_state rocks_env t ≡ ok default_conf_state)
    × (Rocks.last_index rocks_env t ≡ ok 9)
    × (Rocks.snapshot rocks_env t ≡ ok full_snapshot)
    × (t.log_entries ≡ rocks.log_entries)
unfolding Rocks.hard_state Rocks.read_meta Ordered.lookup_pair Keys.lex_lt
apply_snapshot-stores_example =
    apply_snapshot-stores rocks_env list_db-IsReliable full_snapshot rocks default_hard_state refl
      (omega arith)

entries-read_entries_example : Rocks.entries rocks_env 6 8 none rocks ≡ ok (entry 6 2 ∷ [])
entries-read_entries_example =
    entries-read_entries rocks_env 6 8 5 5 log rocks rocks-Holds (refl, (refl, tt))
      rocks-first_index (omega arith) (omega arith)

term-read_term_example : Rocks.term rocks_env 6 rocks ≡ ok 1
unfolding Rocks.snapshot Ordered.lookup_pair Keys.lex_lt View.entry_at
term-read_term_example =
    term-read_term rocks_env 6 5 default_snapshot log rocks rocks-Holds rocks-first_index refl
      (omega arith)

lex_lt-entry_key_example : lex_lt (entry_key 99) (entry_key 100) ≡ true
lex_lt-entry_key_example = lex_lt-entry_key 99 100 (omega arith) (omega arith)

lex_lt_breaks_example :
    (9999999999 < 10000000000) × (lex_lt (entry_key 10000000000) (entry_key 9999999999) ≡ true)
lex_lt_breaks_example =
    lex_lt_breaks 10000000000 9999999999 (omega arith) (omega arith) (omega arith) (omega arith)

-- The entry at 6 is replaced, one at 7 comes after it, and what lies before 6 goes.
abbrev writes : List Write
writes = appends (entry 6 9) (entry 7 3 ∷ []) ∷ compacts 6 ∷ []

stores-agree_example :
    let l : Histories.Log = record { entries = log; last = 6; snapshot_index = 0 } in
    (u : Core.State Pairs) × (v : Rocks.State Pairs) × (write_all (heed_store heed_env) writes heed
      ≡ (ok tt, u))
    × (write_all (rocks_store rocks_env) writes rocks ≡ (ok tt, v))
    × (Heed.all_entries heed_env u ≡ ok (all_written writes l).entries)
    × (Rocks.all_entries rocks_env v ≡ ok (all_written writes l).entries)
    × (Heed.last_index heed_env u ≡ ok (all_written writes l).last)
    × (Rocks.last_index rocks_env v ≡ ok (all_written writes l).last)
unfolding Core.last_index Core.snapshot Core.read_meta Rocks.last_index Ordered.lookup_pair
    Keys.lex_lt Keys.parse Keys.parse_digits greatest written
stores-agree_example =
    stores-agree heed_env rocks_env writes (record { entries = log; last = 6; snapshot_index = 0 })
      heed rocks heed_env-IsWritable working_files-IsWorking list_db-IsReliable
      (record {
        entries = heed-Holds;
        last = refl;
        snapshot = (default_snapshot, refl, refl);
        file = tt;
      })
      (record { entries = rocks-Holds; last = refl })
      (((omega arith, (omega arith, tt)), omega arith, omega arith, omega arith), (omega arith, tt))
