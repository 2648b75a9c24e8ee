-- ===== src/Storage/Heed/Compaction.antt =====
-- raftify/src/storage/heed_storage/mod.rs: `compact`.
use riteraft_ng.Prelude.{
  ℕ, ◌<◌, ◌≡◌, refl, ◌∙◌, not, Bool, true, false, List, ltb, if◌then◌else◌, filter,
}
use riteraft_ng.Outcome.{Outcome, ok, err, panic, is_ok}
use riteraft_ng.Exec.{Exec, ◌>>=◌, when}
use riteraft_ng.Proto.{Entry}
use riteraft_ng.Storage.Keys.{entry_key}
use riteraft_ng.Storage.View.{
  key_limit, decode_pairs, decode_pairs-encode_entries, not-under-encode_entries,
  under-encode_entries,
}
use riteraft_ng.Storage.Heed.CompactedLogs.{File, save_compacted_entries}
use riteraft_ng.Storage.Heed
use riteraft_ng.Storage.Heed.{committed}
use riteraft_ng.Storage.Heed.Core.{Env, IsWritable, State, Disk, on_file, delete_below}
use riteraft_ng.Storage.Heed.Core
use riteraft_ng.Storage.Heed.Log.{Holds, filter-AreSmall}

-- The entries before an index, and those from it on.
abbrev pub below : ℕ → List Entry → List Entry
below index es = filter (λ e. ltb e.index index) es

abbrev pub from_index : ℕ → List Entry → List Entry
from_index index es = filter (λ e. not (ltb e.index index)) es

module _ {Db : Type 0} (env : Env Db) where
  -- The attempt to save entries, which the settings may switch off, and the file after it.
  abbrev pub saved : List Entry → Exec File Unit
  saved es =
      when env.save_compacted_logs
        (save_compacted_entries env.files env.compacted_log_size_threshold es)

  pub when-on_file :
      (b : Bool) (m : Exec File Unit) (s : State Db) → when b (on_file m) s ≡ on_file (when b m) s
  when-on_file true m s = refl
  when-on_file false m s = refl

  pub gone_entries :
      (index : ℕ) (es : List Entry) (s : State Db)
      → index < key_limit
      → Holds env es s
      → decode_pairs env.entry (env.db.range_to (entry_key index) s.disk.entries_db)
        ≡ below index es
  gone_entries index es s small h =
      rw
        (
          env.db.range_to_lem (entry_key index) s.disk.entries_db,
          h.log,
          under-encode_entries env.entry index es small h.small,
        )
        (decode_pairs-encode_entries env.entry _)

  module _ (w : IsWritable env) where
    pub delete_below-Holds :
        (index : ℕ) (es : List Entry) (s : State Db)
        → index < key_limit
        → Holds env es s
        → (t : State Db) × (delete_below env index s ≡ (ok tt, t))
          × Holds env (from_index index es) t
          × (t.disk.metadata_db ≡ s.disk.metadata_db)
          × (t.compacted_logs ≡ s.compacted_logs)
    unfolding delete_below
    delete_below-Holds index es s small h =
        let (d, p) = w.db.delete_range_to_ok (entry_key index) s.disk.entries_db in
        (
          record s { disk = record s.disk { entries_db = d } },
          rw (p, delete_below),
          record {
            log =
                env.db.delete_range_to_lem _ s.disk.entries_db d p
                ∙ rw h.log (not-under-encode_entries env.entry index es small h.small);
            small = filter-AreSmall (λ e. not (ltb e.index index)) es h.small;
          },
          refl,
          refl,
        )

    -- With the result of the attempt to save as a variable.
    pub compact-saved :
        (index : ℕ) (es : List Entry) (s : State Db)
        → index < key_limit
        → Holds env es s
        → (r : Outcome Unit) (file : File) → saved (below index es) s.compacted_logs ≡ (r, file)
        → (t : State Db) × (Heed.compact env index s ≡ (r, t))
          × Holds env (if is_ok r then from_index index es else es) t
          × (t.disk.metadata_db ≡ s.disk.metadata_db)
          × (t.compacted_logs ≡ file)
    unfolding ◌>>=◌ committed Heed.compact Core.compact
    compact-saved index es s small h (ok _) file e =
        let (t, p, k, m, c) =
          delete_below-Holds index es (record s { compacted_logs = file }) small
            (record { log = h.log; small = h.small }) in
        (
          t,
          rw (w.begins s.disk, gone_entries index es s small h, when-on_file _ _ s, e, p)
              (rw (w.commits t.disk)),
          k,
          m,
          c,
        )
    compact-saved index es s small h (err x) file e = (
      record s { compacted_logs = file },
      rw (w.begins s.disk, gone_entries index es s small h, when-on_file _ _ s, e),
      record { log = h.log; small = h.small },
      refl,
      refl,
    )
    compact-saved index es s small h panic file e = (
      record s { compacted_logs = file },
      rw (w.begins s.disk, gone_entries index es s small h, when-on_file _ _ s, e),
      record { log = h.log; small = h.small },
      refl,
      refl,
    )

    -- On an environment that can be written, compaction of a log of ten-digit indices at an index of
    -- ten digits first saves the entries before the index to the file, if the settings say so, and
    -- ends as that attempt ends. Where it ends well, exactly the entries from the index on are kept;
    -- where it fails, the whole log is kept. The file is as the attempt left it, and no
    -- metadata is changed.
    pub compact_lem :
        (index : ℕ) (es : List Entry) (s : State Db)
        → index < key_limit
        → Holds env es s
        → let (r, file) = saved (below index es) s.compacted_logs in
          (t : State Db) × (Heed.compact env index s ≡ (r, t))
          × Holds env (if is_ok r then from_index index es else es) t
          × (t.disk.metadata_db ≡ s.disk.metadata_db)
          × (t.compacted_logs ≡ file)
    compact_lem index es s small h = compact-saved index es s small h _ _ refl
