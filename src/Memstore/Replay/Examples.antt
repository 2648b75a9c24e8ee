-- ===== src/Memstore/Replay/Examples.antt =====
-- A replica of the example's state machine, at concrete entries.
use riteraft_ng.Prelude.{◌≡◌, List, [], ◌∷◌, ◌++◌}
use riteraft_ng.Outcome.{ok}
use riteraft_ng.Exec.{◌>>◌}
use riteraft_ng.Proto.{Bytes}
use riteraft_ng.Memstore
use riteraft_ng.Memstore.{LogEntry, insert, HashStore}
use riteraft_ng.Memstore.Replay.{apply_all, last_value, restore-snapshot_replay}
use riteraft_ng.Samples.Texts.{hash_store_codec, log_entry_codec}

abbrev early : List LogEntry
early = insert 1 "a" ∷ insert 2 "b" ∷ []

abbrev late : List LogEntry
late = insert 1 "c" ∷ []

abbrev other : HashStore
other = (9, "z") ∷ []

restore-snapshot_replay_example :
    let taken =
      (apply_all log_entry_codec hash_store_codec early
          >> Memstore.snapshot log_entry_codec hash_store_codec)
        [] in
    let restored = λ (b : Bytes).
      (Memstore.restore log_entry_codec hash_store_codec b
          >> apply_all log_entry_codec hash_store_codec late)
        other in
    (b : Bytes) × (taken.0 ≡ ok b)
    × (restored b ≡ apply_all log_entry_codec hash_store_codec (early ++ late) [])
    × (Memstore.get 1 (restored b).1 ≡ last_value 1 (early ++ late) (Memstore.get 1 []))
restore-snapshot_replay_example =
    restore-snapshot_replay log_entry_codec hash_store_codec early late [] other 1
