-- ===== src/Storage/Histories/Stores.antt =====
-- raftify/src/storage/heed_storage/mod.rs and raftify/src/storage/rocksdb_storage/mod.rs: both stores
-- keep what the trait promises of the log.
use riteraft_ng.Prelude.{ℕ, ◌≡◌, refl, ◌∙◌, Bool, true, false, List, [], ◌∷◌}
use riteraft_ng.Outcome.{ok}
use riteraft_ng.Exec.{when}
use riteraft_ng.Proto.{Entry, Snapshot}
use riteraft_ng.Storage.Ordered.{IsReliable}
use riteraft_ng.Storage.Heed.CompactedLogs.{
  File, IsReadable, IsWorking, add_batch-IsReadable, drop_large-IsReadable, save_compacted_entries,
  save_compacted_entries_lem,
}
use riteraft_ng.Storage.Heed.Meta.{read_meta-eq}
use riteraft_ng.Storage.Heed
use riteraft_ng.Storage.Heed.Core
use riteraft_ng.Storage.Heed.Log as HeedLog
use riteraft_ng.Storage.Heed.Reads as HeedReads
use riteraft_ng.Storage.Heed.Compaction
use riteraft_ng.Storage.Rocks
use riteraft_ng.Storage.Rocks.Reads as RocksReads
use riteraft_ng.Storage.Rocks.Writes as RocksWrites
use riteraft_ng.Storage.Histories.{
  AreAllowed, IsAllowed, Log, LogStore, Write, all_written, appends, write_all, write_all-agree,
  written, compacts, first_of,
}
use riteraft_ng.Node.Stores.{heed_store, rocks_store}

module _ {Db : Type 0} (env : Core.Env Db) where
  pub record HeedHolds (l : Log) (s : Core.State Db) : Type 0 where
    pub entries : HeedLog.Holds env l.entries s
    pub last : Core.last_index env s ≡ ok l.last
    pub snapshot :
        (x : Snapshot) × (Core.snapshot env s ≡ ok x) × (x.metadata.index ≡ l.snapshot_index)
    pub file : IsReadable s.compacted_logs

  heed_last_index :
      (s t : Core.State Db)
      → t.disk.metadata_db ≡ s.disk.metadata_db
      → Core.last_index env t ≡ Core.last_index env s
  unfolding Core.last_index
  heed_last_index s t m = read_meta-eq env _ _ _ s t m

  heed_snapshot :
      (s t : Core.State Db)
      → t.disk.metadata_db ≡ s.disk.metadata_db
      → Core.snapshot env t ≡ Core.snapshot env s
  unfolding Core.snapshot
  heed_snapshot s t m = read_meta-eq env _ _ _ s t m

  heed_first_index :
      (es : List Entry) (last snapshot_index : ℕ) (s : Core.State Db)
      → HeedHolds (record { entries = es; last = last; snapshot_index = snapshot_index }) s
      → Core.first_index env s ≡ ok (first_of snapshot_index es)
  heed_first_index [] last i s h =
      let (x, e, p) = h.snapshot in HeedLog.first_index-nil env s x h.entries e ∙ rw p refl
  heed_first_index (x ∷ xs) last i s h = HeedLog.first_index-cons env x xs s h.entries

  module _ {printed_size : List (List Entry) → ℕ} (w : Core.IsWritable env)
      (f : IsWorking env.files printed_size) where
    heed_append :
        (n : Entry) (ns : List Entry) (l : Log) (s : Core.State Db)
        → HeedHolds l s
        → IsAllowed (appends n ns) l
        → (t : Core.State Db) × (Heed.append env (n ∷ ns) s ≡ (ok tt, t))
          × HeedHolds (written (appends n ns) l) t
    unfolding written
    heed_append n ns l s h (small, starts, no_gap, fits) =
        let first = heed_first_index l.entries l.last l.snapshot_index s h in
        let (t, e, k, i, _, _, x, c) =
          HeedLog.append_lem env w n ns l.entries s _ l.last small h.entries first h.last starts
            no_gap in
        let (y, p, q) = h.snapshot in
        (t, e, record { entries = k; last = i; snapshot = (y, x ∙ p, q); file = rw c h.file })

    -- The attempt to save succeeds on such a file system.
    saved-IsReadable :
        (es : List Entry) (file : File)
        → IsReadable file
        → (g : File) × (Compaction.saved env es file ≡ (ok tt, g)) × IsReadable g
    saved-IsReadable es file r = go env.save_compacted_logs
      where
        go :
            (b : Bool)
            → (g : File) × (when b
                  (save_compacted_entries env.files env.compacted_log_size_threshold es)
                  file
                ≡ (ok tt, g))
              × IsReadable g
        go true = (
          _,
          save_compacted_entries_lem env.files f env.compacted_log_size_threshold es file r,
          add_batch-IsReadable env.files f es _
              (drop_large-IsReadable env.files f env.compacted_log_size_threshold file r),
        )
        go false = (file, refl, r)

    heed_compact :
        (index : ℕ) (l : Log) (s : Core.State Db)
        → HeedHolds l s
        → IsAllowed (compacts index) l
        → (t : Core.State Db) × (Heed.compact env index s ≡ (ok tt, t))
          × HeedHolds (written (compacts index) l) t
    unfolding written
    heed_compact index l s h small =
        let (g, p, r) =
          saved-IsReadable (Compaction.below index l.entries) s.compacted_logs h.file in
        let (t, e, k, m, c) =
          Compaction.compact-saved env w index l.entries s small h.entries (ok tt) g p in
        let (y, a, b) = h.snapshot in
        (
          t,
          e,
          record {
            entries = k;
            last = heed_last_index s t m ∙ h.last;
            snapshot = (y, heed_snapshot s t m ∙ a, b);
            file = rw c r;
          },
        )

    heed_log : LogStore (heed_store env) (Heed.all_entries env)
    unfolding Heed.last_index
    heed_log = record {
      Holds = HeedHolds;
      append_law = heed_append;
      compact_law = heed_compact;
      read_law = λ l s h. (HeedReads.all_entries_lem env l.entries s h.entries, rw h.last);
    }

module _ {Db : Type 0} (env : Rocks.Env Db) where
  pub record RocksHolds (l : Log) (s : Rocks.State Db) : Type 0 where
    pub entries : RocksReads.Holds env l.entries s
    pub last : Rocks.last_index env s ≡ ok l.last

  rocks_last_index :
      (s t : Rocks.State Db)
      → t.meta_data ≡ s.meta_data
      → Rocks.last_index env t ≡ Rocks.last_index env s
  unfolding Rocks.last_index
  rocks_last_index s t m = rw m

  rocks_log : IsReliable env.db → LogStore (rocks_store env) (Rocks.all_entries env)
  unfolding written
  rocks_log r = record {
    Holds = RocksHolds;
    append_law = λ n ns l s h a.
        let (t, e, k, i) =
          RocksWrites.append-put_entries env r n ns l.entries s l.last a.0 h.entries h.last a.2
            a.3 in
        (t, e, record { entries = k; last = i });
    compact_law = λ index l s h small.
        let (t, e, k, m) = RocksWrites.compact-filter env r index l.entries s small h.entries in
        (t, e, record { entries = k; last = rocks_last_index s t m ∙ h.last });
    read_law = λ l s h. (RocksReads.all_entries-Holds env l.entries s h.entries, h.last);
  }

-- The store over LMDB, on an environment that can be written and a file system that does what it is
-- asked, and the one over RocksDB, on a database whose writes succeed: where both hold the same log
-- and report the same last index, and the file of compacted logs of the first can be read, every
-- sequence of compactions and of appends of ten-digit indices, each of which starts neither below
-- the first index (the one after the snapshot of the first store, where the log is empty) nor after
-- a gap, succeeds on both, and both then return the same entries and last index: those that the
-- sequence makes of the log, where an append keeps what lies after its entries.
pub stores-agree :
    {Db Kv : Type 0} (heed : Core.Env Db) (rocks : Rocks.Env Kv)
    {printed_size : List (List Entry) → ℕ} (ws : List Write) (l : Log) (s : Core.State Db)
    (t : Rocks.State Kv)
    → Core.IsWritable heed
    → IsWorking heed.files printed_size
    → IsReliable rocks.db
    → HeedHolds heed l s
    → RocksHolds rocks l t
    → AreAllowed ws l
    → (u : Core.State Db) × (v : Rocks.State Kv) × (write_all (heed_store heed) ws s ≡ (ok tt, u))
      × (write_all (rocks_store rocks) ws t ≡ (ok tt, v))
      × (Heed.all_entries heed u ≡ ok (all_written ws l).entries)
      × (Rocks.all_entries rocks v ≡ ok (all_written ws l).entries)
      × (Heed.last_index heed u ≡ ok (all_written ws l).last)
      × (Rocks.last_index rocks v ≡ ok (all_written ws l).last)
unfolding heed_log rocks_log
stores-agree heed rocks ws l s t w f q h k a =
    write_all-agree (heed_log heed w f) (rocks_log rocks q) ws l s t h k a
