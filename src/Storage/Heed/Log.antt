-- ===== src/Storage/Heed/Log.antt =====
-- raftify/src/storage/heed_storage/mod.rs: `append` and `compact` on the log that the database
-- holds.
use riteraft_ng.Prelude.{
  ℕ, ◌≤◌, ◌<◌, max, ◌≡◌, refl, ap, ◌∙◌, Bool, false, List, [], ◌∷◌, arith, ltb, filter,
}
use riteraft_ng.Outcome.{ok}
use riteraft_ng.Exec.{◌>>=◌}
use riteraft_ng.Proto.{Entry, Snapshot}
use riteraft_ng.Storage.Keys.{entry_key}
use riteraft_ng.Storage.Keys.Order.{parse-entry_key}
use riteraft_ng.Storage.Ordered.Laws.{Differ-sym}
use riteraft_ng.Storage.View.{
  AreSmall, key_limit, put_entry, put_entries, encode_entries, insert_pair-encode_entries,
}
use riteraft_ng.Storage.Heed
use riteraft_ng.Storage.Heed.{committed}
use riteraft_ng.Storage.Heed.Core.{Env, IsWritable, State, Disk, next_index, last_index_key}
use riteraft_ng.Storage.Heed.Core
use riteraft_ng.Storage.Heed.Meta.{
  write_meta-Writes, read_self, read-other, read_meta-eq, hard_state_last_index,
  conf_state_last_index, last_index_snapshot,
}

pub put_entry-AreSmall :
    (e : Entry) (es : List Entry) → e.index < key_limit → AreSmall es → AreSmall (put_entry e es)
unfolding ◌>>=◌ put_entry
put_entry-AreSmall e [] h s = (h, tt)
put_entry-AreSmall e (x ∷ xs) h s = ground (arith, put_entry-AreSmall e xs h s.1)

pub filter-AreSmall : (p : Entry → Bool) (es : List Entry) → AreSmall es → AreSmall (filter p es)
filter-AreSmall p [] s = tt
filter-AreSmall p (x ∷ xs) s = ground (arith, filter-AreSmall p xs s.1)

-- The greatest of an index and those of the entries.
unfoldable pub greatest : ℕ → List Entry → ℕ
greatest last [] = last
greatest last (e ∷ es) = greatest (max e.index last) es

module _ {Db : Type 0} (env : Env Db) where
  -- The database of entries holds the log `es`.
  pub record Holds (es : List Entry) (s : State Db) : Type 0 where
    pub log : env.db.pairs s.disk.entries_db ≡ encode_entries env.entry es
    pub small : AreSmall es

  pub first_index-cons :
      (x : Entry) (es : List Entry) (s : State Db)
      → Holds (x ∷ es) s
      → Core.first_index env s ≡ ok x.index
  unfolding ◌>>=◌ Core.first_index encode_entries
  first_index-cons x es s h =
      let key = (parse-entry_key x.index (omega (arith, h.small.0))).0 in
      rw (env.db.first_lem s.disk.entries_db, h.log, Core.first_index)
        (rw (env.entry.decode-encode x, key))

  pub first_index-nil :
      (s : State Db) (x : Snapshot)
      → Holds [] s
      → Core.snapshot env s ≡ ok x
      → Core.first_index env s ≡ ok (next_index x.metadata.index)
  unfolding ◌>>=◌ Core.first_index encode_entries
  first_index-nil s x h e = rw (env.db.first_lem s.disk.entries_db, h.log, Core.first_index) (rw e)

  module _ (w : IsWritable env) where
    put_entry_lem :
        (e : Entry) (es : List Entry) (s : State Db)
        → e.index < key_limit
        → Holds es s
        → (t : State Db) × (Core.put_entry env e s ≡ (ok tt, t))
          × Holds (put_entry e es) t
          × (t.disk.metadata_db ≡ s.disk.metadata_db)
          × (t.compacted_logs ≡ s.compacted_logs)
    unfolding ◌>>=◌ Core.put_entry
    put_entry_lem e es s small h =
        let (d, p) = w.db.put_ok (entry_key e.index) (env.entry.encode e) s.disk.entries_db in
        (
          record s { disk = record s.disk { entries_db = d } },
          rw (p, Core.put_entry),
          record {
            log =
                env.db.put_lem _ _ s.disk.entries_db d p
                ∙ rw h.log (insert_pair-encode_entries env.entry e es small h.small);
            small = put_entry-AreSmall e es small h.small;
          },
          refl,
          refl,
        )

    put_all_lem :
        (last : ℕ) (ns es : List Entry) (s : State Db)
        → AreSmall ns
        → Holds es s
        → (t : State Db) × (Core.put_all env last ns s ≡ (ok (greatest last ns), t))
          × Holds (put_entries ns es) t
          × (t.disk.metadata_db ≡ s.disk.metadata_db)
          × (t.compacted_logs ≡ s.compacted_logs)
    unfolding ◌>>=◌ Core.put_all put_entries greatest
    put_all_lem last [] es s small h = (s, refl, h, refl, refl)
    put_all_lem last (n ∷ ns) es s small h =
        let (t, p, k, m, c) = put_entry_lem n es s small.0 h in
        let (u, q, l, m', c') = put_all_lem (max n.index last) ns (put_entry n es) t small.1 k in
        (u, rw (p, q), l, m' ∙ m, c' ∙ c)

    -- On an environment that can be written, a log of ten-digit indices takes entries of ten-digit
    -- indices that neither reach below its first index nor leave a gap after its last: each is put
    -- at its index, what lies after them is kept, the last index becomes the greatest of the old
    -- one and theirs, and the hard state, the membership, the snapshot and the file of compacted
    -- logs stay as they were.
    pub append_lem :
        (n : Entry) (ns es : List Entry) (s : State Db) (first last : ℕ)
        → AreSmall (n ∷ ns)
        → Holds es s
        → Core.first_index env s ≡ ok first
        → Core.last_index env s ≡ ok last
        → first ≤ n.index
        → n.index ≤ next_index last
        → (t : State Db) × (Heed.append env (n ∷ ns) s ≡ (ok tt, t))
          × Holds (put_entries (n ∷ ns) es) t
          × (Core.last_index env t ≡ ok (greatest last (n ∷ ns)))
          × (Core.hard_state env t ≡ Core.hard_state env s)
          × (Core.conf_state env t ≡ Core.conf_state env s)
          × (Core.snapshot env t ≡ Core.snapshot env s)
          × (t.compacted_logs ≡ s.compacted_logs)
    unfolding ◌>>=◌ committed Heed.append Core.append Core.set_last_index Core.last_index
        Core.hard_state Core.conf_state Core.snapshot
    append_lem n ns es s first last small h ef el lo hi =
        let (t, p, k, m, c) = put_all_lem last (n ∷ ns) es s small h in
        let (u, q, v) =
          write_meta-Writes env w.db last_index_key (env.number.encode (greatest last (n ∷ ns)))
            t in
        let in_range : ltb n.index first ≡ false = ground arith in
        let no_gap : ltb (next_index last) n.index ≡ false = ground arith in
        (
          u,
          rw (w.begins s.disk, ef, in_range, el, no_gap, p, q) (rw (w.commits u.disk)),
          record { log = ap env.db.pairs v.entries ∙ k.log; small = k.small },
          read_self env env.number 0 _ last_index_key v,
          read-other env env.hard_state _ _ v hard_state_last_index ∙ read_meta-eq env _ _ _ s t m,
          read-other env env.conf_state _ _ v conf_state_last_index ∙ read_meta-eq env _ _ _ s t m,
          read-other env env.snapshot _ _ v (Differ-sym _ _ last_index_snapshot)
              ∙ read_meta-eq env _ _ _ s t m,
          v.logs ∙ c,
        )
