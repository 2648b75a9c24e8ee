-- ===== src/Storage/Heed.antt =====
-- raftify/src/storage/heed_storage/mod.rs: the store over LMDB. `Heed.Core` has the operations on
-- an open transaction; here each method of `HeedStorage` opens one, and commits it or drops it.
pub mod CompactedLogs
pub mod Core
pub mod Meta
pub mod Log
pub mod Reads
pub mod Compaction
pub mod Retries
pub mod Snapshots
use riteraft_ng.Prelude.{ℕ, max, Option, none, some, List, ltb, ◌==◌, if◌then◌else◌}
use riteraft_ng.Outcome.{
  Error, Outcome, ok, err, panic, database, map_err, unwrap_ok, raft_error, store, StorageError,
  compacted, unavailable, snapshot_temporarily_unavailable, other, ◌>>=◌ as bind,
}
use riteraft_ng.Exec.{Exec, asks, ◌>>=◌, ◌>>◌}
use riteraft_ng.Proto.{Bytes, Entry, HardState, ConfState, Snapshot}
use Core.{Disk, State, Env}
use Core

-- What a transaction leaves: its databases if it was committed, the old ones if the commit failed
-- or it was dropped. The file of compacted logs is outside of it.
abbrev settle : {Db A : Type 0} → Env Db → Disk Db → Outcome A → State Db → Outcome A × State Db
settle env old (ok a) t =
    if env.commit t.disk then (ok a, t) else (err database, record t { disk = old })
settle env old (err e) t = (err e, record t { disk = old })
settle env old panic t = (panic, record t { disk = old })

-- `write_txn`, the body, `commit`. An error or a panic drops the transaction.
unfoldable pub committed : {Db A : Type 0} → Env Db → Exec (State Db) A → Exec (State Db) A
committed env body s =
    let (r, t) = body s in if env.write_txn s.disk then settle env s.disk r t else (err database, s)

-- `write_txn` and the body, with no `commit`: the transaction is dropped at the end of the method.
unfoldable pub dropped : {Db A : Type 0} → Env Db → Exec (State Db) A → Exec (State Db) A
dropped env body s =
    let (r, t) = body s in
    if env.write_txn s.disk then (r, record t { disk = s.disk }) else (err database, s)

-- `map_err` into raft-rs's errors.
abbrev raft_store : StorageError → Error
raft_store e = raft_error (store e)

module _ {Db : Type 0} (env : Env Db) where
  unfoldable pub compact : ℕ → Exec (State Db) Unit
  compact index = committed env (Core.compact env index)

  unfoldable pub append : List Entry → Exec (State Db) Unit
  append es = committed env (Core.append env es)

  unfoldable pub hard_state : State Db → Outcome HardState
  hard_state = Core.hard_state env

  unfoldable pub set_hard_state : HardState → Exec (State Db) Unit
  set_hard_state h = committed env (Core.set_hard_state env h)

  unfoldable pub set_hard_state_commit : ℕ → Exec (State Db) Unit
  set_hard_state_commit commit = do
    h ← asks (Core.hard_state env)
    dropped env (Core.set_hard_state env (record h { commit = commit }))

  unfoldable pub conf_state : State Db → Outcome ConfState
  conf_state = Core.conf_state env

  unfoldable pub set_conf_state : ConfState → Exec (State Db) Unit
  set_conf_state c = committed env (Core.set_conf_state env c)

  unfoldable pub create_snapshot : Bytes → ℕ → ℕ → Exec (State Db) Unit
  create_snapshot bytes index term = committed env do
    c ← asks (Core.conf_state env)
    Core.set_snapshot env
        (record { data_ = bytes; metadata = record { conf_state = c; index = index; term = term } })

  unfoldable pub apply_snapshot : Snapshot → Exec (State Db) Unit
  apply_snapshot x = committed env do
    h ← asks (Core.hard_state env)
    Core.set_hard_state env
        (record h { term = max h.term x.metadata.term; commit = x.metadata.index })
    Core.set_conf_state env x.metadata.conf_state
    Core.set_last_index env x.metadata.index
    Core.set_snapshot env x

  unfoldable pub all_entries : State Db → Outcome (List Entry)
  all_entries s = map_err (raft_store other) (Core.all_entries env s)

  unfoldable pub initial_state : State Db → Outcome (HardState × ConfState)
  initial_state s =
      bind (map_err (raft_store other) (Core.hard_state env s))
        λ h. bind (map_err (raft_store other) (Core.conf_state env s)) λ c. ok (h, c)

  unfoldable pub entries : ℕ → ℕ → Option ℕ → State Db → Outcome (List Entry)
  entries low high max_size s =
      bind (map_err (raft_store unavailable) (Core.first_index env s)) λ first.
        if ltb low first
        then err (raft_store compacted)
        else map_err (raft_store other) (Core.entries env low high max_size s)

  abbrev term_of : ℕ → ℕ → Option Entry → Outcome ℕ
  term_of index first (some e) = ok e.term
  term_of index first none =
      if ltb index first then err (raft_store compacted) else err (raft_store unavailable)

  unfoldable pub term : ℕ → State Db → Outcome ℕ
  term index s = bind (map_err (raft_store unavailable) (Core.first_index env s)) λ first.
      bind (unwrap_ok (Core.snapshot env s)) λ x.
        if x.metadata.index == index
        then ok x.metadata.term
        else bind (map_err (raft_store unavailable) (Core.entry env index s)) (term_of index first)

  unfoldable pub first_index : State Db → Outcome ℕ
  first_index s = map_err (raft_store unavailable) (Core.first_index env s)

  unfoldable pub last_index : State Db → Outcome ℕ
  last_index s = map_err (raft_store unavailable) (Core.last_index env s)

  unfoldable pub snapshot : ℕ → ℕ → State Db → Outcome Snapshot
  snapshot request_index to s =
      map_err (raft_store snapshot_temporarily_unavailable) (Core.snapshot env s)
