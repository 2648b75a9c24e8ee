-- ===== src/Storage/Rocks/Writes.antt =====
-- raftify/src/storage/rocksdb_storage/mod.rs: the writes, on a database whose writes succeed.
use riteraft_ng.Prelude.{
  ℕ, ◌^◌, ◌≤◌, ◌<◌, max, ◌≡◌, refl, ap, ◌∙◌, false, not, some, List, [], ◌∷◌, arith, ltb, filter,
}
use riteraft_ng.Outcome.{ok}
use riteraft_ng.Exec.{◌>>=◌}
use riteraft_ng.Proto.{Bytes, Entry, Snapshot, HardState}
use riteraft_ng.Storage.Keys.{entry_key, to_string}
use riteraft_ng.Storage.Keys.Order.{parse-to_string}
use riteraft_ng.Storage.Ordered.{IsReliable}
use riteraft_ng.Storage.Ordered.Laws.{
  Differ, Differ-sym, lookup_pair-insert_pair_self, lookup_pair-insert_pair_ne,
}
use riteraft_ng.Storage.View.{
  AreSmall, key_limit, put_entry, put_entries, insert_pair-encode_entries,
  not-between-encode_entries,
}
use riteraft_ng.Storage.Heed.Core.{
  next_index, last_index_key, hard_state_key, conf_state_key, snapshot_key,
}
use riteraft_ng.Storage.Heed.Log.{greatest, put_entry-AreSmall, filter-AreSmall}
use riteraft_ng.Storage.Heed.Meta.{
  hard_state_conf_state, hard_state_last_index, hard_state_snapshot, conf_state_last_index,
  conf_state_snapshot, last_index_snapshot,
}
use riteraft_ng.Storage.Rocks
use riteraft_ng.Storage.Rocks.{Env, State}
use riteraft_ng.Storage.Rocks.Reads.{Holds}

module _ {Db : Type 0} (env : Env Db) (r : IsReliable env.db) where
  -- `t` is `s` with `value` under `key` in the metadata.
  record Writes (key value : Bytes) (s t : State Db) : Type 0 where
    log : t.log_entries ≡ s.log_entries
    self : env.db.get key t.meta_data ≡ some value
    others : (j : Bytes) → Differ j key → env.db.get j t.meta_data ≡ env.db.get j s.meta_data

  write_meta-Writes :
      (key value : Bytes) (s : State Db)
      → (t : State Db) × (Rocks.write_meta env key value s ≡ (ok tt, t)) × Writes key value s t
  unfolding ◌>>=◌ Rocks.write_meta
  write_meta-Writes key value s =
      let (d, e) = r.put_ok key value s.meta_data in
      let p = env.db.put_lem key value s.meta_data d e in
      (
        record s { meta_data = d },
        rw (e, Rocks.write_meta),
        record {
          log = refl;
          self = rw (env.db.get_lem key d, p) (lookup_pair-insert_pair_self key value _);
          others = λ j n.
              rw (env.db.get_lem j d, p, env.db.get_lem j s.meta_data)
                (lookup_pair-insert_pair_ne j key value _ n);
        },
      )

  -- On a database whose writes succeed, with a hard state that can be read, a commit index that is
  -- set is stored: the term and the vote of the hard state stay, and so do the log, the last index
  -- and the snapshot.
  pub set_hard_state_commit-stores :
      (commit : ℕ) (s : State Db) (h : HardState)
      → Rocks.hard_state env s ≡ ok h
      → (t : State Db) × (Rocks.set_hard_state_commit env commit s ≡ (ok tt, t))
        × (Rocks.hard_state env t ≡ ok (record h { commit = commit }))
        × (t.log_entries ≡ s.log_entries)
        × (Rocks.last_index env t ≡ Rocks.last_index env s)
        × (Rocks.snapshot env t ≡ Rocks.snapshot env s)
  unfolding ◌>>=◌ Rocks.set_hard_state_commit Rocks.set_hard_state Rocks.hard_state Rocks.read_meta
      Rocks.last_index Rocks.snapshot
  set_hard_state_commit-stores commit s h e =
      let h' : HardState = record h { commit = commit } in
      let (t, p, w) = write_meta-Writes hard_state_key (env.hard_state.encode h') s in
      (
        t,
        rw (e, p),
        rw (Rocks.read_meta, w.self, env.hard_state.decode-encode h'),
        w.log,
        rw (Rocks.last_index, w.others last_index_key (Differ-sym _ _ hard_state_last_index)),
        rw (Rocks.snapshot, w.others snapshot_key (Differ-sym _ _ hard_state_snapshot)),
      )

  -- On a database whose writes succeed, with a hard state that can be read, applying a snapshot
  -- with an index of 64 bits succeeds, also where the snapshot is older than the log or than the
  -- one that is stored: it raises the term to the snapshot's if that is higher, sets the commit and
  -- the last index to the snapshot's, stores its membership and the snapshot itself, and leaves the
  -- entries of the log where they are.
  pub apply_snapshot-stores :
      (x : Snapshot) (s : State Db) (h : HardState)
      → Rocks.hard_state env s ≡ ok h
      → x.metadata.index < 2 ^ 64
      → (t : State Db) × (Rocks.apply_snapshot env x s ≡ (ok tt, t))
        × (Rocks.hard_state env t
            ≡ ok (record h { term = max h.term x.metadata.term; commit = x.metadata.index }))
        × (Rocks.conf_state env t ≡ ok x.metadata.conf_state)
        × (Rocks.last_index env t ≡ ok x.metadata.index)
        × (Rocks.snapshot env t ≡ ok x)
        × (t.log_entries ≡ s.log_entries)
  unfolding ◌>>=◌ Rocks.apply_snapshot Rocks.hard_state Rocks.conf_state Rocks.last_index
      Rocks.snapshot Rocks.read_meta Rocks.set_hard_state Rocks.set_conf_state Rocks.set_last_index
      Rocks.set_snapshot
  apply_snapshot-stores x s h e b =
      let h' : HardState = record h {
        term = max h.term x.metadata.term;
        commit = x.metadata.index;
      } in
      let (t1, e1, w1) = write_meta-Writes hard_state_key (env.hard_state.encode h') s in
      let (t2, e2, w2) =
        write_meta-Writes conf_state_key (env.conf_state.encode x.metadata.conf_state) t1 in
      let (t3, e3, w3) = write_meta-Writes last_index_key (to_string x.metadata.index) t2 in
      let (t4, e4, w4) = write_meta-Writes snapshot_key (env.snapshot.encode x) t3 in
      (
        t4,
        rw (e, e1, e2, e3, e4),
        rw (
          Rocks.hard_state,
          Rocks.read_meta,
          w4.others _ hard_state_snapshot,
          w3.others _ hard_state_last_index,
          w2.others _ hard_state_conf_state,
          w1.self,
          env.hard_state.decode-encode h',
        ),
        rw (
          Rocks.conf_state,
          Rocks.read_meta,
          w4.others _ conf_state_snapshot,
          w3.others _ conf_state_last_index,
          w2.self,
          env.conf_state.decode-encode x.metadata.conf_state,
        ),
        rw (
          Rocks.last_index,
          w4.others _ last_index_snapshot,
          w3.self,
          parse-to_string x.metadata.index b,
        ),
        rw (Rocks.snapshot, w4.self, env.snapshot.decode-encode x),
        w4.log ∙ w3.log ∙ w2.log ∙ w1.log,
      )

  put_entry_lem :
      (e : Entry) (es : List Entry) (s : State Db)
      → e.index < key_limit
      → Holds env es s
      → (t : State Db) × (Rocks.put_entry env e s ≡ (ok tt, t))
        × Holds env (put_entry e es) t
        × (t.meta_data ≡ s.meta_data)
  unfolding ◌>>=◌ Rocks.put_entry
  put_entry_lem e es s small h =
      let (d, p) = r.put_ok (entry_key e.index) (env.entry.encode e) s.log_entries in
      (
        record s { log_entries = d },
        rw (p, Rocks.put_entry),
        record {
          log =
              env.db.put_lem _ _ s.log_entries d p
              ∙ rw h.log (insert_pair-encode_entries env.entry e es small h.small);
          small = put_entry-AreSmall e es small h.small;
        },
        refl,
      )

  put_all_lem :
      (last : ℕ) (ns es : List Entry) (s : State Db)
      → AreSmall ns
      → Holds env es s
      → (t : State Db) × (Rocks.put_all env last ns s ≡ (ok (greatest last ns), t))
        × Holds env (put_entries ns es) t
        × (t.meta_data ≡ s.meta_data)
  unfolding ◌>>=◌ Rocks.put_all put_entries greatest
  put_all_lem last [] es s small h = (s, refl, h, refl)
  put_all_lem last (n ∷ ns) es s small h =
      let (t, p, k, m) = put_entry_lem n es s small.0 h in
      let (u, q, l, m') = put_all_lem (max n.index last) ns (put_entry n es) t small.1 k in
      (u, rw (p, q), l, m' ∙ m)

  -- On a database whose writes succeed, appending entries of ten-digit indices that leave no gap
  -- after the last index puts each at its index, also where that lies below the first one, keeps
  -- what lies after them, and sets the last index to the greatest of the old one and theirs, where
  -- that fits 64 bits.
  pub append-put_entries :
      (n : Entry) (ns es : List Entry) (s : State Db) (last : ℕ)
      → AreSmall (n ∷ ns)
      → Holds env es s
      → Rocks.last_index env s ≡ ok last
      → n.index ≤ next_index last
      → greatest last (n ∷ ns) < 2 ^ 64
      → (t : State Db) × (Rocks.append env (n ∷ ns) s ≡ (ok tt, t))
        × Holds env (put_entries (n ∷ ns) es) t
        × (Rocks.last_index env t ≡ ok (greatest last (n ∷ ns)))
  unfolding ◌>>=◌ Rocks.append Rocks.set_last_index Rocks.last_index
  append-put_entries n ns es s last small h el hi b =
      let (t, p, k, m) = put_all_lem last (n ∷ ns) es s small h in
      let (u, q, w) = write_meta-Writes last_index_key (to_string (greatest last (n ∷ ns))) t in
      let no_gap : ltb (next_index last) n.index ≡ false = ground arith in
      (
        u,
        rw (el, no_gap, p, q),
        record { log = ap env.db.pairs w.log ∙ k.log; small = k.small },
        rw (Rocks.last_index, w.self, parse-to_string (greatest last (n ∷ ns)) b),
      )

  -- On a database whose writes succeed, compaction at an index of ten digits keeps exactly the
  -- entries at that index and after it, and changes no metadata.
  pub compact-filter :
      (index : ℕ) (es : List Entry) (s : State Db)
      → index < key_limit
      → Holds env es s
      → (t : State Db) × (Rocks.compact env index s ≡ (ok tt, t))
        × Holds env (filter (λ e. not (ltb e.index index)) es) t
        × (t.meta_data ≡ s.meta_data)
  unfolding ◌>>=◌ Rocks.compact
  compact-filter index es s small h =
      let (d, p) = r.delete_range_ok (entry_key 0) (entry_key index) s.log_entries in
      (
        record s { log_entries = d },
        rw (p, Rocks.compact),
        record {
          log =
              env.db.delete_range_lem _ _ s.log_entries d p
              ∙ rw h.log (not-between-encode_entries env.entry index es small h.small);
          small = filter-AreSmall (λ e. not (ltb e.index index)) es h.small;
        },
        refl,
      )
