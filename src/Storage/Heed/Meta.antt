-- ===== src/Storage/Heed/Meta.antt =====
-- raftify/src/storage/heed_storage/mod.rs: the values under the metadata keys, and what a write of
-- one of them leaves alone.
use riteraft_ng.Prelude.{◌≡◌, refl, inl, inr, some}
use riteraft_ng.Outcome.{ok}
use riteraft_ng.Proto.{Bytes, Codec}
use riteraft_ng.Storage.Keys.{lex_lt}
use riteraft_ng.Storage.Ordered.{IsReliable}
use riteraft_ng.Storage.Ordered.Laws.{
  Differ, lookup_pair-insert_pair_self, lookup_pair-insert_pair_ne,
}
use riteraft_ng.Storage.Heed.Core.{
  Env, State, read_meta, write_meta, hard_state_key, conf_state_key, last_index_key, snapshot_key,
}

pub hard_state_conf_state : Differ hard_state_key conf_state_key
unfolding lex_lt
hard_state_conf_state = inr refl

pub hard_state_last_index : Differ hard_state_key last_index_key
unfolding lex_lt
hard_state_last_index = inl refl

pub hard_state_snapshot : Differ hard_state_key snapshot_key
unfolding lex_lt
hard_state_snapshot = inl refl

pub conf_state_last_index : Differ conf_state_key last_index_key
unfolding lex_lt
conf_state_last_index = inl refl

pub conf_state_snapshot : Differ conf_state_key snapshot_key
unfolding lex_lt
conf_state_snapshot = inl refl

pub last_index_snapshot : Differ last_index_key snapshot_key
unfolding lex_lt
last_index_snapshot = inl refl

module _ {Db : Type 0} (env : Env Db) where
  -- `t` is `s` with `value` under `key`.
  pub record Writes (key value : Bytes) (s t : State Db) : Type 0 where
    pub entries : t.disk.entries_db ≡ s.disk.entries_db
    pub logs : t.compacted_logs ≡ s.compacted_logs
    pub self : env.db.get key t.disk.metadata_db ≡ some value
    pub others :
        (j : Bytes)
        → Differ j key
        → env.db.get j t.disk.metadata_db ≡ env.db.get j s.disk.metadata_db

  pub write_meta-Writes :
      IsReliable env.db
      → (key value : Bytes) (s : State Db)
      → (t : State Db) × (write_meta env key value s ≡ (ok tt, t)) × Writes key value s t
  unfolding write_meta
  write_meta-Writes r key value s =
      let (d, e) = r.put_ok key value s.disk.metadata_db in
      let p = env.db.put_lem key value s.disk.metadata_db d e in
      (
        record s { disk = record s.disk { metadata_db = d } },
        rw (e, write_meta),
        record {
          entries = refl;
          logs = refl;
          self = rw (env.db.get_lem key d, p) (lookup_pair-insert_pair_self key value _);
          others = λ j n.
              rw (env.db.get_lem j d, p, env.db.get_lem j s.disk.metadata_db)
                (lookup_pair-insert_pair_ne j key value _ n);
        },
      )

  pub read_self :
      {A : Type 0} (c : Codec A) (default a : A) (key : Bytes) {s t : State Db}
      → Writes key (c.encode a) s t
      → read_meta env key c default t ≡ ok a
  unfolding read_meta
  read_self c default a key w = rw (w.self, read_meta) (rw (c.decode-encode a))

  pub read-other :
      {A : Type 0} (c : Codec A) (default : A) (j : Bytes) {key value : Bytes} {s t : State Db}
      → Writes key value s t
      → Differ j key
      → read_meta env j c default t ≡ read_meta env j c default s
  unfolding read_meta
  read-other c default j w d = rw (w.others j d, read_meta)

  pub read_meta-eq :
      {A : Type 0} (c : Codec A) (default : A) (j : Bytes) (s t : State Db)
      → t.disk.metadata_db ≡ s.disk.metadata_db
      → read_meta env j c default t ≡ read_meta env j c default s
  unfolding read_meta
  read_meta-eq c default j s t m = rw m
