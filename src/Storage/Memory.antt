-- ===== src/Storage/Memory.antt =====
-- raftify/src/storage/inmemory_storage/mod.rs: the store in memory, around raft-rs's own, whose
-- operations are a parameter.
pub mod Snapshots
mod Examples
use riteraft_ng.Prelude.{ℕ, Option, List, ◌==◌, if◌then◌else◌}
use riteraft_ng.Outcome.{Outcome, ok, panic}
use riteraft_ng.Exec.{Exec, modify, ◌>>=◌, ◌>>◌}
use riteraft_ng.Proto.{Bytes, ConfState, Entry, HardState, Snapshot, default_snapshot}
use riteraft_ng.Node.State.{StableStorage}

-- raft-rs's `MemStorage`.
pub record MemStorageCore (M : Type 0) : Type 0 where
  pub append : List Entry → Exec M Unit
  pub hard_state : M → HardState
  pub set_hardstate : HardState → M → M
  pub set_conf_state : ConfState → M → M
  pub snapshot : ℕ → ℕ → Exec M Snapshot
  pub apply_snapshot : Snapshot → Exec M Unit
  pub compact : ℕ → Exec M Unit
  pub initial_state : M → Outcome (HardState × ConfState)
  pub entries : ℕ → ℕ → Option ℕ → M → Outcome (List Entry)
  pub term : ℕ → M → Outcome ℕ
  pub first_index : M → Outcome ℕ
  pub last_index : M → Outcome ℕ

pub record MemStorage (M : Type 0) : Type 0 where
  pub core : M
  pub snapshot_ : Snapshot

abbrev pub create : {M : Type 0} → M → MemStorage M
create default_core = record { core = default_core; snapshot_ = default_snapshot }

abbrev pub on_core : {M A : Type 0} → Exec M A → Exec (MemStorage M) A
on_core m s = let (r, t) = m s.core in (r, record s { core = t })

module _ {M : Type 0} (env : MemStorageCore M) where
  unfoldable pub append : List Entry → Exec (MemStorage M) Unit
  append entries = on_core (env.append entries)

  unfoldable pub hard_state : MemStorage M → Outcome HardState
  hard_state s = ok (env.hard_state s.core)

  unfoldable pub set_hard_state : HardState → Exec (MemStorage M) Unit
  set_hard_state h = on_core (modify (env.set_hardstate h))

  unfoldable pub set_hard_state_commit : ℕ → Exec (MemStorage M) Unit
  set_hard_state_commit commit =
      on_core (modify (λ m. env.set_hardstate (record (env.hard_state m) { commit = commit }) m))

  -- `todo!`
  unfoldable pub conf_state : MemStorage M → Outcome ConfState
  conf_state s = panic

  unfoldable pub set_conf_state : ConfState → Exec (MemStorage M) Unit
  set_conf_state c = on_core (modify (env.set_conf_state c))

  -- The snapshot of raft-rs's store, with the data, the index and the term that are given.
  unfoldable pub create_snapshot : Bytes → ℕ → ℕ → Exec (MemStorage M) Unit
  create_snapshot bytes index term = do
    x ← on_core (env.snapshot 0 0)
    modify (λ s. record s {
      snapshot_ = record {
        data_ = bytes;
        metadata = record x.metadata { index = index; term = term };
      };
    })

  -- An empty snapshot brings its membership only.
  unfoldable pub apply_snapshot : Snapshot → Exec (MemStorage M) Unit
  apply_snapshot x = on_core (
      if x.metadata.index == 0
      then modify (env.set_conf_state x.metadata.conf_state)
      else env.apply_snapshot x)

  unfoldable pub compact : ℕ → Exec (MemStorage M) Unit
  compact index = on_core (env.compact index)

  -- `todo!`
  unfoldable pub all_entries : MemStorage M → Outcome (List Entry)
  all_entries s = panic

  unfoldable pub initial_state : MemStorage M → Outcome (HardState × ConfState)
  initial_state s = env.initial_state s.core

  unfoldable pub entries : ℕ → ℕ → Option ℕ → MemStorage M → Outcome (List Entry)
  entries low high max_size s = env.entries low high max_size s.core

  unfoldable pub term : ℕ → MemStorage M → Outcome ℕ
  term idx s = env.term idx s.core

  unfoldable pub first_index : MemStorage M → Outcome ℕ
  first_index s = env.first_index s.core

  unfoldable pub last_index : MemStorage M → Outcome ℕ
  last_index s = env.last_index s.core

  -- The snapshot that was created last, whatever is asked for.
  unfoldable pub snapshot : ℕ → ℕ → MemStorage M → Outcome Snapshot
  snapshot request_index to s = ok s.snapshot_

  abbrev pub mem_store : StableStorage (MemStorage M)
  mem_store = record {
    append = append;
    hard_state = hard_state;
    set_hard_state = set_hard_state;
    set_hard_state_commit = set_hard_state_commit;
    conf_state = conf_state;
    set_conf_state = set_conf_state;
    create_snapshot = create_snapshot;
    apply_snapshot = apply_snapshot;
    compact = compact;
    last_index = last_index;
    snapshot = snapshot 0 0;
  }
