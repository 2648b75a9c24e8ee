-- ===== src/Storage/Heed/Retries.antt =====
-- raftify/src/storage/heed_storage/mod.rs: a compaction whose commit fails, and the one after it.
use riteraft_ng.Prelude.{ℕ, ◌<◌, ◌≡◌, refl, true, false, List}
use riteraft_ng.Outcome.{ok, err, database}
use riteraft_ng.Exec.{◌>>=◌}
use riteraft_ng.Proto.{Entry}
use riteraft_ng.Storage.View.{key_limit}
use riteraft_ng.Storage.Heed.CompactedLogs.{
  File, IsReadable, IsWorking, add_batch, add_batch-IsReadable, drop_large, drop_large-IsReadable,
  save_compacted_entries_lem,
}
use riteraft_ng.Storage.Heed
use riteraft_ng.Storage.Heed.{committed}
use riteraft_ng.Storage.Heed.Core.{Disk, Env, IsWritable, State}
use riteraft_ng.Storage.Heed.Core
use riteraft_ng.Storage.Heed.Log.{Holds}
use riteraft_ng.Storage.Heed.Compaction.{
  below, compact-saved, delete_below-Holds, from_index, gone_entries, saved, when-on_file,
}

module _ {Db : Type 0} (env : Env Db) (printed_size : List (List Entry) → ℕ) where
  -- The file after one more batch.
  abbrev pub logged : List Entry → File → File
  logged es file = add_batch (drop_large printed_size env.compacted_log_size_threshold file) es

  -- The environment while the disk refuses to commit.
  abbrev pub full : Env Db
  full = record env { commit = λ d. false }

  module _ (w : IsWritable env) (f : IsWorking env.files printed_size)
      (saves : env.save_compacted_logs ≡ true) where
    saved-logged :
        (es : List Entry) (file : File)
        → IsReadable file
        → saved env es file ≡ (ok tt, logged es file)
    saved-logged es file r =
        rw saves (save_compacted_entries_lem env.files f env.compacted_log_size_threshold es file r)

    full-compact :
        (index : ℕ) (es : List Entry) (s : State Db)
        → index < key_limit
        → Holds env es s
        → IsReadable s.compacted_logs
        → Heed.compact full index s
          ≡ (err database, record s { compacted_logs = logged (below index es) s.compacted_logs })
    unfolding ◌>>=◌ committed Heed.compact Core.compact
    full-compact index es s small h r =
        let file = logged (below index es) s.compacted_logs in
        let (t, p, k, m, c) =
          delete_below-Holds env w index es (record s { compacted_logs = file }) small
            (record { log = h.log; small = h.small }) in
        rw
          (
            w.begins s.disk,
            gone_entries env index es s small h,
            when-on_file env _ _ s,
            saved-logged (below index es) s.compacted_logs r,
            p,
          )
          (rw c)

    -- On an environment that can be written but for its commits, which fail for a while, with the
    -- settings to save and a file that can be read, compaction of a log of ten-digit indices at an
    -- index of ten digits reports an error and keeps both databases, but the entries are in the
    -- file; the compaction that is tried again, when commits succeed, keeps exactly the entries from
    -- the index on, and adds the same entries to the file once more, unless it was over the
    -- threshold and was replaced.
    pub compact-retried :
        (index : ℕ) (es : List Entry) (s : State Db)
        → index < key_limit
        → Holds env es s
        → IsReadable s.compacted_logs
        → (t u : State Db) × (Heed.compact full index s ≡ (err database, t))
          × (t.disk ≡ s.disk)
          × (Heed.compact env index t ≡ (ok tt, u))
          × Holds env (from_index index es) u
          × (u.compacted_logs ≡ logged (below index es) (logged (below index es) s.compacted_logs))
    compact-retried index es s small h r =
        let file = logged (below index es) s.compacted_logs in
        let t : State Db = record s { compacted_logs = file } in
        let readable : IsReadable file =
          add_batch-IsReadable env.files f (below index es) _ (
            drop_large-IsReadable env.files f env.compacted_log_size_threshold s.compacted_logs
              r) in
        let (u, p, k, m, c) =
          compact-saved env w index es t small (record { log = h.log; small = h.small }) (ok tt) _
            (saved-logged (below index es) file readable) in
        (t, u, full-compact index es s small h r, refl, p, k, c)
