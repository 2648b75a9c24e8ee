-- ===== src/Storage/Rocks.antt =====
-- raftify/src/storage/rocksdb_storage/mod.rs: the store over RocksDB, with a column family for the
-- log and one for the metadata. There are no transactions, and a failed write panics.
pub mod Reads
pub mod Writes
use riteraft_ng.Prelude.{
  ℕ, zero, suc, ◌+◌, ◌-◌, max, ◌≡◌, Bool, Option, none, some, List, [], ◌∷◌, ltb, ◌==◌,
  if◌then◌else◌,
}
use riteraft_ng.Outcome.{
  Error, Outcome, ok, err, panic, map_err, unwrap, unwrap_ok, or_fail, raft_error, store, other,
  other_error, ◌>>=◌ as bind,
}
use riteraft_ng.Exec.{Exec, asks, pure, abort, when, ◌>>=◌, ◌>>◌}
use riteraft_ng.Proto.{
  Bytes, Codec, Entry, HardState, ConfState, Snapshot, default_hard_state, default_conf_state,
  default_snapshot,
}
use riteraft_ng.Storage.Keys.{entry_key, parse, to_string}
use riteraft_ng.Storage.Ordered.{Ordered, Pairs}
use riteraft_ng.Storage.Spec.{compacted_error, unavailable_error}
use riteraft_ng.Storage.Heed.Core.{
  next_index, snapshot_key, last_index_key, hard_state_key, conf_state_key,
}

pub record State (Db : Type 0) : Type 0 where
  pub log_entries : Db
  pub meta_data : Db

pub record Env (Db : Type 0) : Type 0 where
  pub db : Ordered Db
  pub entry : Codec Entry
  pub hard_state : Codec HardState
  pub conf_state : Codec ConfState
  pub snapshot : Codec Snapshot
  pub fatal_aborts : Bool
  pub limit_size : Option ℕ → List Entry → List Entry
  pub limit_size_none : (es : List Entry) → limit_size none es ≡ es

abbrev pub other_store : Error
other_store = raft_error (store other)

module _ {Db : Type 0} (env : Env Db) where
  -- `put_cf(…).unwrap()` on the metadata.
  unfoldable pub write_meta : Bytes → Bytes → Exec (State Db) Unit
  write_meta key value s = elim (env.db.put key value s.meta_data) [
    | none ↦ (panic, s)
    | some d ↦ (ok tt, record s { meta_data = d })
  ]

  unfoldable pub read_meta : {A : Type 0} → Bytes → Codec A → A → State Db → Outcome A
  read_meta key codec default s = elim (env.db.get key s.meta_data) [
    | none ↦ ok default
    | some bytes ↦ or_fail (codec.decode bytes) other_error
  ]

  unfoldable pub hard_state : State Db → Outcome HardState
  hard_state = read_meta hard_state_key env.hard_state default_hard_state

  unfoldable pub set_hard_state : HardState → Exec (State Db) Unit
  set_hard_state h = write_meta hard_state_key (env.hard_state.encode h)

  unfoldable pub set_hard_state_commit : ℕ → Exec (State Db) Unit
  set_hard_state_commit commit = do
    h ← asks hard_state
    set_hard_state (record h { commit = commit })

  unfoldable pub conf_state : State Db → Outcome ConfState
  conf_state = read_meta conf_state_key env.conf_state default_conf_state

  unfoldable pub set_conf_state : ConfState → Exec (State Db) Unit
  set_conf_state c = write_meta conf_state_key (env.conf_state.encode c)

  -- The last index is stored as its decimal text.
  unfoldable pub set_last_index : ℕ → Exec (State Db) Unit
  set_last_index i = write_meta last_index_key (to_string i)

  unfoldable pub last_index : State Db → Outcome ℕ
  last_index s = elim (env.db.get last_index_key s.meta_data) [
    | none ↦ unwrap (parse (48 ∷ []))
    | some text ↦ unwrap (parse text)
  ]

  unfoldable pub set_snapshot : Snapshot → Exec (State Db) Unit
  set_snapshot x = write_meta snapshot_key (env.snapshot.encode x)

  unfoldable pub snapshot : State Db → Outcome Snapshot
  snapshot s = elim (env.db.get snapshot_key s.meta_data) [
    | none ↦ ok default_snapshot
    | some bytes ↦ unwrap (env.snapshot.decode bytes)
  ]

  unfoldable pub create_snapshot : Bytes → ℕ → ℕ → Exec (State Db) Unit
  create_snapshot bytes index term = do
    c ← asks (λ s. unwrap_ok (conf_state s))
    set_snapshot
        (record { data_ = bytes; metadata = record { conf_state = c; index = index; term = term } })

  unfoldable pub apply_snapshot : Snapshot → Exec (State Db) Unit
  apply_snapshot x = do
    h ← asks hard_state
    set_hard_state (record h { term = max h.term x.metadata.term; commit = x.metadata.index })
    set_conf_state x.metadata.conf_state
    set_last_index x.metadata.index
    set_snapshot x

  -- `logger.fatal`
  abbrev fatal : Exec (State Db) Unit
  fatal = if env.fatal_aborts then abort else pure tt

  unfoldable pub put_entry : Entry → Exec (State Db) Unit
  put_entry e s = elim (env.db.put (entry_key e.index) (env.entry.encode e) s.log_entries) [
    | none ↦ (panic, s)
    | some d ↦ (ok tt, record s { log_entries = d })
  ]

  unfoldable pub put_all : ℕ → List Entry → Exec (State Db) ℕ
  put_all last [] = pure last
  put_all last (e ∷ es) = do put_entry e; put_all (max e.index last) es

  unfoldable pub append : List Entry → Exec (State Db) Unit
  append [] = pure tt
  append (e ∷ es) = do
    last ← asks last_index
    when (ltb (next_index last) e.index) fatal
    last' ← put_all last (e ∷ es)
    set_last_index last'

  unfoldable pub compact : ℕ → Exec (State Db) Unit
  compact index s = elim (env.db.delete_range (entry_key 0) (entry_key index) s.log_entries) [
    | none ↦ (panic, s)
    | some d ↦ (ok tt, record s { log_entries = d })
  ]

  -- The first entry gives its own index.
  unfoldable pub first_index : State Db → Outcome ℕ
  first_index s = elim (env.db.first s.log_entries) [
    | some (key, value) ↦ bind (unwrap (env.entry.decode value)) (λ e. ok e.index)
    | none ↦ bind (unwrap_ok (snapshot s)) (λ x. ok (next_index x.metadata.index))
  ]

  -- The loop of `entries` over `low..high`, with `n` indices to go.
  unfoldable pub gather : ℕ → ℕ → State Db → Outcome (List Entry)
  gather zero idx s = ok []
  gather (suc n) idx s =
      let rest = gather n (idx + 1) s in
      elim (env.db.get (entry_key idx) s.log_entries) [
        | none ↦ rest
        | some value ↦ bind (unwrap (env.entry.decode value)) (λ e. bind rest (λ es. ok (e ∷ es)))
      ]

  unfoldable pub entries : ℕ → ℕ → Option ℕ → State Db → Outcome (List Entry)
  entries low high max_size s = bind (map_err unavailable_error (first_index s)) λ first.
      if ltb low first
      then err compacted_error
      else bind (gather (high - low) low s) (λ es. ok (env.limit_size max_size es))

  abbrev term_of_value : Option Entry → Outcome ℕ
  term_of_value none = err unavailable_error
  term_of_value (some e) = ok e.term

  unfoldable pub term : ℕ → State Db → Outcome ℕ
  term idx s = bind (first_index s) λ first. bind (snapshot s) λ x.
      if x.metadata.index == idx
      then ok x.metadata.term
      else elim (env.db.get (entry_key idx) s.log_entries) [
        | some value ↦ term_of_value (env.entry.decode value)
        | none ↦ if ltb idx first then err compacted_error else err unavailable_error
      ]

  unfoldable pub decode_all : Pairs → Outcome (List Entry)
  decode_all [] = ok []
  decode_all ((key, value) ∷ m) =
      let rest = decode_all m in
      bind (or_fail (env.entry.decode value) other_store) (λ e. bind rest (λ es. ok (e ∷ es)))

  unfoldable pub all_entries : State Db → Outcome (List Entry)
  all_entries s = decode_all (env.db.pairs s.log_entries)

  unfoldable pub initial_state : State Db → Outcome (HardState × ConfState)
  initial_state s =
      bind (unwrap_ok (hard_state s)) (λ h. bind (unwrap_ok (conf_state s)) (λ c. ok (h, c)))
