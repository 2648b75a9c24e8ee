-- ===== src/Storage/Heed/Reads.antt =====
-- raftify/src/storage/heed_storage/mod.rs: `entries`, `term` and `all_entries` read the log.
use mathlib.Core.Option
use riteraft_ng.Prelude.{ℕ, ◌<◌, ◌≡◌, inl, inr, none, List, arith, Option-cases}
use riteraft_ng.Outcome.{ok}
use riteraft_ng.Proto.{Entry, Snapshot}
use riteraft_ng.Storage.Keys.{entry_key}
use riteraft_ng.Storage.View.{
  key_limit, entry_at, decode_pairs, decode_pairs-encode_entries, between-encode_entries,
  lookup_pair-encode_entries,
}
use riteraft_ng.Storage.Spec.{read_entries, read_term, slice}
use riteraft_ng.Storage.Heed
use riteraft_ng.Storage.Heed.Core
use riteraft_ng.Storage.Heed.Core.{Env, State}
use riteraft_ng.Storage.Heed.Log.{Holds}

module _ {Db : Type 0} (env : Env Db) where
  -- A read of the entries in a range of ten-digit indices, with no limit on the size, returns those
  -- of the log in that range, or the error for a compacted log if the range starts below the first
  -- index.
  pub entries_lem :
      (low high first : ℕ) (es : List Entry) (s : State Db)
      → Holds env es s
      → Core.first_index env s ≡ ok first
      → low < key_limit
      → high < key_limit
      → Heed.entries env low high none s ≡ read_entries first low high es
  unfolding Heed.entries Core.entries
  entries_lem low high first es s h ef pl ph =
      let read : decode_pairs env.entry
            (env.db.range (entry_key low) (entry_key high) s.disk.entries_db)
          ≡ slice low high es =
        rw
          (
            env.db.range_lem (entry_key low) (entry_key high) s.disk.entries_db,
            h.log,
            between-encode_entries env.entry low high es pl ph h.small,
          )
          (decode_pairs-encode_entries env.entry _) in
      rw (ef, read, env.limit_size_none (slice low high es))

  entry_lem :
      (index : ℕ) (es : List Entry) (s : State Db)
      → Holds env es s
      → index < key_limit
      → Core.entry env index s ≡ ok (entry_at index es)
  unfolding Core.entry
  entry_lem index es s h p =
      let found : env.db.get (entry_key index) s.disk.entries_db
          ≡ Option.map env.entry.encode (entry_at index es) =
        rw (env.db.get_lem (entry_key index) s.disk.entries_db, h.log)
          (lookup_pair-encode_entries env.entry index es p h.small) in
      elim (Option-cases (entry_at index es)) [
        | inl e ↦ rw (found, e, Core.entry)
        | inr (x, e) ↦ rw (found, e, Core.entry) (rw (env.entry.decode-encode x))
      ]

  -- The term at an index of ten digits is the snapshot's at its index, else that of the log's entry
  -- there; with no entry the error says whether the index lies below the first one.
  pub term_lem :
      (index first : ℕ) (x : Snapshot) (es : List Entry) (s : State Db)
      → Holds env es s
      → Core.first_index env s ≡ ok first
      → Core.snapshot env s ≡ ok x
      → index < key_limit
      → Heed.term env index s ≡ read_term first index x es
  unfolding Heed.term
  term_lem index first x es s h ef ex p = rw (ef, ex, entry_lem index es s h p) (ground arith)

  -- All entries of the log, in the order of their indices.
  pub all_entries_lem :
      (es : List Entry) (s : State Db) → Holds env es s → Heed.all_entries env s ≡ ok es
  unfolding Heed.all_entries Core.all_entries
  all_entries_lem es s h = rw (h.log, decode_pairs-encode_entries env.entry es)
