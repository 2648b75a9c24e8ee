-- ===== src/Storage/Heed/Core.antt =====
-- raftify/src/storage/heed_storage/mod.rs: `HeedStorageCore`, the operations inside a transaction.
use riteraft_ng.Prelude.{
  ℕ, ◌+◌, ◌%◌, ◌^◌, max, ◌≡◌, Bool, true, Option, none, some, List, [], ◌∷◌, ltb, if◌then◌else◌,
}
use riteraft_ng.Outcome.{Outcome, ok, err, or_fail, unwrap, database, other_error, ◌>>=◌ as bind}
use riteraft_ng.Exec.{Exec, gets, asks, pure, abort, when, ◌>>=◌, ◌>>◌}
use riteraft_ng.Proto.{
  Bytes, Codec, Entry, HardState, ConfState, Snapshot, default_hard_state, default_conf_state,
  default_snapshot,
}
use riteraft_ng.Storage.Keys.{entry_key, parse}
use riteraft_ng.Storage.Ordered.{Ordered, IsReliable}
use riteraft_ng.Storage.View.{decode_pairs}
use riteraft_ng.Storage.Heed.CompactedLogs.{File, Files, save_compacted_entries}

-- The metadata keys of constant.rs, as bytes.
abbrev pub snapshot_key : Bytes
snapshot_key = 115 ∷ 110 ∷ 97 ∷ 112 ∷ 115 ∷ 104 ∷ 111 ∷ 116 ∷ []

abbrev pub last_index_key : Bytes
last_index_key = 108 ∷ 97 ∷ 115 ∷ 116 ∷ 95 ∷ 105 ∷ 110 ∷ 100 ∷ 101 ∷ 120 ∷ []

abbrev pub hard_state_key : Bytes
hard_state_key = 104 ∷ 97 ∷ 114 ∷ 100 ∷ 95 ∷ 115 ∷ 116 ∷ 97 ∷ 116 ∷ 101 ∷ []

abbrev pub conf_state_key : Bytes
conf_state_key = 99 ∷ 111 ∷ 110 ∷ 102 ∷ 95 ∷ 115 ∷ 116 ∷ 97 ∷ 116 ∷ 101 ∷ []

-- `n + 1` on u64 in a release build.
abbrev pub next_index : ℕ → ℕ
next_index n = (n + 1) % 2 ^ 64

-- The two databases of the environment.
pub record Disk (Db : Type 0) : Type 0 where
  pub entries_db : Db
  pub metadata_db : Db

-- With the file `compacted_logs.json`.
pub record State (Db : Type 0) : Type 0 where
  pub disk : Disk Db
  pub compacted_logs : File

-- The database, the encodings, the settings, and what is foreign: whether a write transaction
-- begins and whether its commit succeeds, the file system, raft-rs's `limit_size`, and whether the
-- logger's `fatal` stops the caller by a panic.
pub record Env (Db : Type 0) : Type 0 where
  pub db : Ordered Db
  pub write_txn : Disk Db → Bool
  pub commit : Disk Db → Bool
  pub entry : Codec Entry
  pub hard_state : Codec HardState
  pub conf_state : Codec ConfState
  pub snapshot : Codec Snapshot
  pub number : Codec ℕ
  pub files : Files
  pub save_compacted_logs : Bool
  pub compacted_log_size_threshold : ℕ
  pub fatal_aborts : Bool
  pub limit_size : Option ℕ → List Entry → List Entry
  pub limit_size_none : (es : List Entry) → limit_size none es ≡ es

-- An environment whose transactions begin and commit, and whose writes succeed.
pub record IsWritable {Db : Type 0} (env : Env Db) : Type 0 where
  pub db : IsReliable env.db
  pub begins : (d : Disk Db) → env.write_txn d ≡ true
  pub commits : (d : Disk Db) → env.commit d ≡ true

-- A method that works on the file only.
abbrev pub on_file : {Db A : Type 0} → Exec File A → Exec (State Db) A
on_file m s = let (r, file) = m s.compacted_logs in (r, record s { compacted_logs = file })

module _ {Db : Type 0} (env : Env Db) where
  -- `metadata_db.get`, decoded; a missing value is the default.
  unfoldable pub read_meta : {A : Type 0} → Bytes → Codec A → A → State Db → Outcome A
  read_meta key codec default s = elim (env.db.get key s.disk.metadata_db) [
    | none ↦ ok default
    | some bytes ↦ or_fail (codec.decode bytes) other_error
  ]

  unfoldable pub write_meta : Bytes → Bytes → Exec (State Db) Unit
  write_meta key value s = elim (env.db.put key value s.disk.metadata_db) [
    | none ↦ (err database, s)
    | some d ↦ (ok tt, record s { disk = record s.disk { metadata_db = d } })
  ]

  unfoldable pub hard_state : State Db → Outcome HardState
  hard_state = read_meta hard_state_key env.hard_state default_hard_state

  unfoldable pub set_hard_state : HardState → Exec (State Db) Unit
  set_hard_state h = write_meta hard_state_key (env.hard_state.encode h)

  unfoldable pub conf_state : State Db → Outcome ConfState
  conf_state = read_meta conf_state_key env.conf_state default_conf_state

  unfoldable pub set_conf_state : ConfState → Exec (State Db) Unit
  set_conf_state c = write_meta conf_state_key (env.conf_state.encode c)

  unfoldable pub snapshot : State Db → Outcome Snapshot
  snapshot = read_meta snapshot_key env.snapshot default_snapshot

  unfoldable pub set_snapshot : Snapshot → Exec (State Db) Unit
  set_snapshot x = write_meta snapshot_key (env.snapshot.encode x)

  unfoldable pub last_index : State Db → Outcome ℕ
  last_index = read_meta last_index_key env.number 0

  unfoldable pub set_last_index : ℕ → Exec (State Db) Unit
  set_last_index i = write_meta last_index_key (env.number.encode i)

  -- The first key is parsed back; the value beside it is decoded by the database's type.
  abbrev first_of_pair : Bytes × Bytes → Outcome ℕ
  first_of_pair (key, value) =
      bind (or_fail (env.entry.decode value) database) (λ _. unwrap (parse key))

  unfoldable pub first_index : State Db → Outcome ℕ
  first_index s = elim (env.db.first s.disk.entries_db) [
    | some pair ↦ first_of_pair pair
    | none ↦ bind (snapshot s) (λ x. ok (next_index x.metadata.index))
  ]

  unfoldable pub entry : ℕ → State Db → Outcome (Option Entry)
  entry index s = elim (env.db.get (entry_key index) s.disk.entries_db) [
    | none ↦ ok none
    | some value ↦ bind (or_fail (env.entry.decode value) database) (λ e. ok (some e))
  ]

  unfoldable pub entries : ℕ → ℕ → Option ℕ → State Db → Outcome (List Entry)
  entries low high max_size s = ok (
      env.limit_size max_size
        (decode_pairs env.entry (env.db.range (entry_key low) (entry_key high) s.disk.entries_db)))

  unfoldable pub all_entries : State Db → Outcome (List Entry)
  all_entries s = ok (decode_pairs env.entry (env.db.pairs s.disk.entries_db))

  -- `logger.fatal`
  abbrev fatal : Exec (State Db) Unit
  fatal = if env.fatal_aborts then abort else pure tt

  unfoldable pub put_entry : Entry → Exec (State Db) Unit
  put_entry e s = elim (env.db.put (entry_key e.index) (env.entry.encode e) s.disk.entries_db) [
    | none ↦ (err database, s)
    | some d ↦ (ok tt, record s { disk = record s.disk { entries_db = d } })
  ]

  -- The loop of `append`, which keeps the greatest index.
  unfoldable pub put_all : ℕ → List Entry → Exec (State Db) ℕ
  put_all last [] = pure last
  put_all last (e ∷ es) = do put_entry e; put_all (max e.index last) es

  unfoldable pub append : List Entry → Exec (State Db) Unit
  append [] = pure tt
  append (e ∷ es) = do
    first ← asks (first_index)
    when (ltb e.index first) fatal
    last ← asks (last_index)
    when (ltb (next_index last) e.index) fatal
    last' ← put_all last (e ∷ es)
    set_last_index last'

  unfoldable pub delete_below : ℕ → Exec (State Db) Unit
  delete_below index s = elim (env.db.delete_range_to (entry_key index) s.disk.entries_db) [
    | none ↦ (err database, s)
    | some d ↦ (ok tt, record s { disk = record s.disk { entries_db = d } })
  ]

  unfoldable pub compact : ℕ → Exec (State Db) Unit
  unfolding ◌>>=◌ delete_below
  compact index = do
    es ← gets (λ s. decode_pairs env.entry (env.db.range_to (entry_key index) s.disk.entries_db))
    when env.save_compacted_logs
        (on_file (save_compacted_entries env.files env.compacted_log_size_threshold es))
    delete_below index
