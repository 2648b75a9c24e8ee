-- ===== src/Storage/Rocks/Reads.antt =====
-- raftify/src/storage/rocksdb_storage/mod.rs: `entries`, `term` and `all_entries` read the log as
-- the trait promises.
use mathlib.Core.Option
use riteraft_ng.Prelude.{
  ℕ, zero, suc, ◌+◌, ◌-◌, ◌≤◌, ◌<◌, ◌≡◌, refl, ap, ◌∙◌, inl, inr, none, List, [], ◌∷◌, arith,
  Option-cases,
}
use riteraft_ng.Outcome.{ok}
use riteraft_ng.Proto.{Entry, Snapshot}
use riteraft_ng.Storage.Keys.{entry_key}
use riteraft_ng.Storage.View.{
  key_limit, entry_at, encode_entries, lookup_pair-encode_entries, AreSmall, IsLog,
}
use riteraft_ng.Storage.View.Slices.{pick, pick-slice}
use riteraft_ng.Storage.Spec.{read_entries, read_term, slice}
use riteraft_ng.Storage.Rocks
use riteraft_ng.Storage.Rocks.{Env, State}

module _ {Db : Type 0} (env : Env Db) where
  -- The column family of entries holds the log `es`.
  pub record Holds (es : List Entry) (s : State Db) : Type 0 where
    pub log : env.db.pairs s.log_entries ≡ encode_entries env.entry es
    pub small : AreSmall es

  pub first_index-cons :
      (x : Entry) (es : List Entry) (s : State Db)
      → Holds (x ∷ es) s
      → Rocks.first_index env s ≡ ok x.index
  unfolding Rocks.first_index encode_entries
  first_index-cons x es s h =
      rw (env.db.first_lem s.log_entries, h.log, Rocks.first_index) (rw (env.entry.decode-encode x))

  found :
      (index : ℕ) (es : List Entry) (s : State Db)
      → Holds es s
      → index < key_limit
      → env.db.get (entry_key index) s.log_entries ≡ Option.map env.entry.encode (entry_at index es)
  found index es s h p =
      rw (env.db.get_lem (entry_key index) s.log_entries, h.log)
        (lookup_pair-encode_entries env.entry index es p h.small)

  gather-pick :
      (n idx : ℕ) (es : List Entry) (s : State Db)
      → Holds es s
      → idx + n ≤ key_limit
      → Rocks.gather env n idx s ≡ ok (pick n idx es)
  unfolding Rocks.gather pick
  gather-pick zero idx es s h p = refl
  gather-pick (suc n) idx es s h p =
      let f = found idx es s h (omega arith) in
      let ih = gather-pick n (idx + 1) es s h (omega arith) in
      elim (Option-cases (entry_at idx es)) [
        | inl e ↦ rw (f, e, ih, Rocks.gather)
        | inr (x, e) ↦ rw (f, e, ih, Rocks.gather) (rw (env.entry.decode-encode x))
      ]

  -- On a gapless log, a read of the entries in a range of ten-digit indices, with no limit on the
  -- size, returns those of the log in that range, or the error for a compacted log if the range
  -- starts below the first index.
  pub entries-read_entries :
      (low high first g : ℕ) (es : List Entry) (s : State Db)
      → Holds es s
      → IsLog g es
      → Rocks.first_index env s ≡ ok first
      → low ≤ high
      → high ≤ key_limit
      → Rocks.entries env low high none s ≡ read_entries first low high es
  unfolding Rocks.entries
  entries-read_entries low high first g es s h l ef order p =
      let all_read : Rocks.gather env (high - low) low s ≡ ok (slice low high es) =
        gather-pick (high - low) low es s h (omega arith)
        ∙ ap ok (pick-slice (high - low) g low high es l (omega arith)) in
      rw (ef, all_read, env.limit_size_none (slice low high es))

  -- The term at an index of ten digits is the snapshot's at its index, else that of the log's entry
  -- there; with no entry the error says whether the index lies below the first one.
  pub term-read_term :
      (index first : ℕ) (x : Snapshot) (es : List Entry) (s : State Db)
      → Holds es s
      → Rocks.first_index env s ≡ ok first
      → Rocks.snapshot env s ≡ ok x
      → index < key_limit
      → Rocks.term env index s ≡ read_term first index x es
  unfolding Rocks.term
  term-read_term index first x es s h ef ex p =
      let f = found index es s h p in
      elim (Option-cases (entry_at index es)) [
        | inl e ↦ rw (ef, ex, f, e)
        | inr (y, e) ↦ rw (ef, ex, f, e) (rw (env.entry.decode-encode y))
      ]

  decode_all-encode_entries :
      (es : List Entry) → Rocks.decode_all env (encode_entries env.entry es) ≡ ok es
  unfolding Rocks.decode_all encode_entries
  decode_all-encode_entries [] = refl
  decode_all-encode_entries (x ∷ xs) =
      ground (arith, env.entry.decode-encode x, decode_all-encode_entries xs)

  -- All entries of the log, in the order of their indices.
  pub all_entries-Holds :
      (es : List Entry) (s : State Db) → Holds es s → Rocks.all_entries env s ≡ ok es
  unfolding Rocks.all_entries
  all_entries-Holds es s h = rw h.log (decode_all-encode_entries es)
