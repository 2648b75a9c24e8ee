-- ===== src/Storage/Memory/Examples.antt =====
-- The store in memory, at a store that stands for raft-rs's and keeps the hard state only.
use riteraft_ng.Prelude.{◌≡◌, refl, [], ◌∷◌}
use riteraft_ng.Outcome.{ok}
use riteraft_ng.Exec
use riteraft_ng.Proto.{
  HardState, Snapshot, default_conf_state, default_hard_state, default_snapshot,
}
use riteraft_ng.Storage.Memory
use riteraft_ng.Storage.Memory.{MemStorage, MemStorageCore, create}
use riteraft_ng.Storage.Memory.Snapshots.{
  append, apply_snapshot, set_hard_state_commit, snapshot-create_snapshot, write_all,
}

abbrev core : MemStorageCore HardState
core = record {
  append = λ es m. (ok tt, m);
  hard_state = λ m. m;
  set_hardstate = λ h m. h;
  set_conf_state = λ c m. m;
  snapshot = λ i to m. (ok default_snapshot, m);
  apply_snapshot = λ x m. (ok tt, record m { commit = x.metadata.index });
  compact = λ i m. (ok tt, m);
  initial_state = λ m. ok (m, default_conf_state);
  entries = λ l h n m. ok [];
  term = λ i m. ok m.term;
  first_index = λ m. ok 1;
  last_index = λ m. ok m.commit;
}

-- A newer snapshot that is applied.
abbrev newer : Snapshot
newer = record {
  data_ = 9 ∷ [];
  metadata = record { conf_state = default_conf_state; index = 8; term = 2 };
}

abbrev created : MemStorage HardState
created = (Memory.create_snapshot core (5 ∷ []) 3 1 (create default_hard_state)).1

snapshot-create_snapshot_example :
    Memory.snapshot core 0 0
      (write_all core (append [] ∷ apply_snapshot newer ∷ set_hard_state_commit 8 ∷ []) created)
    ≡ ok (record {
      data_ = 5 ∷ [];
      metadata = record { conf_state = default_conf_state; index = 3; term = 1 };
    })
unfolding Memory.create_snapshot Exec.◌>>=◌
snapshot-create_snapshot_example =
    snapshot-create_snapshot core (5 ∷ []) 3 1
      (append [] ∷ apply_snapshot newer ∷ set_hard_state_commit 8 ∷ []) 0 0
      (create default_hard_state) created default_snapshot default_hard_state refl refl
