-- ===== src/Storage/Memory/Snapshots.antt =====
-- raftify/src/storage/inmemory_storage/mod.rs: which snapshot the store in memory offers.
use riteraft_ng.Prelude.{ℕ, ◌≡◌, refl, sym, ◌∙◌, ap, List, [], ◌∷◌}
use riteraft_ng.Outcome.{ok}
use riteraft_ng.Exec.{Exec, ◌>>=◌}
use riteraft_ng.Proto.{Bytes, ConfState, Entry, HardState, Snapshot}
use riteraft_ng.Storage.Memory
use riteraft_ng.Storage.Memory.{MemStorage, MemStorageCore}

-- What raft-rs and the node do to the store, besides creating a snapshot.
pub data Write : Type 0 where
  append : List Entry → Write
  set_hard_state : HardState → Write
  set_hard_state_commit : ℕ → Write
  set_conf_state : ConfState → Write
  apply_snapshot : Snapshot → Write
  compact : ℕ → Write

module _ {M : Type 0} (env : MemStorageCore M) where
  abbrev pub write : Write → Exec (MemStorage M) Unit
  write (append es) = Memory.append env es
  write (set_hard_state h) = Memory.set_hard_state env h
  write (set_hard_state_commit n) = Memory.set_hard_state_commit env n
  write (set_conf_state c) = Memory.set_conf_state env c
  write (apply_snapshot x) = Memory.apply_snapshot env x
  write (compact n) = Memory.compact env n

  -- The writes in order; one that fails does not stop the next.
  pub write_all : List Write → MemStorage M → MemStorage M
  write_all [] s = s
  write_all (w ∷ ws) s = write_all ws (write w s).1

  write-snapshot : (w : Write) (s : MemStorage M) → (write w s).1.snapshot_ ≡ s.snapshot_
  unfolding Memory.append Memory.set_hard_state Memory.set_hard_state_commit Memory.set_conf_state
      Memory.apply_snapshot Memory.compact
  write-snapshot (append es) s = refl
  write-snapshot (set_hard_state h) s = refl
  write-snapshot (set_hard_state_commit n) s = refl
  write-snapshot (set_conf_state c) s = refl
  write-snapshot (apply_snapshot x) s = refl
  write-snapshot (compact n) s = refl

  write_all-snapshot :
      (ws : List Write) (s : MemStorage M) → (write_all ws s).snapshot_ ≡ s.snapshot_
  unfolding write_all
  write_all-snapshot [] s = refl
  write_all-snapshot (w ∷ ws) s = write_all-snapshot ws (write w s).1 ∙ write-snapshot w s

  -- After a snapshot was created, the store offers that snapshot for every request, whatever is
  -- written then; in particular a newer snapshot that is applied is not offered.
  pub snapshot-create_snapshot :
      (bytes : Bytes) (index term : ℕ) (ws : List Write) (request_index to : ℕ) (s t : MemStorage M)
      (x : Snapshot) (m : M)
      → env.snapshot 0 0 s.core ≡ (ok x, m)
      → Memory.create_snapshot env bytes index term s ≡ (ok tt, t)
      → Memory.snapshot env request_index to (write_all ws t)
        ≡ ok (record { data_ = bytes; metadata = record x.metadata { index = index; term = term } })
  unfolding Memory.create_snapshot Memory.snapshot ◌>>=◌
  snapshot-create_snapshot bytes index term ws request_index to s t x m e h =
      let made = rw e at h in ap ok (write_all-snapshot ws t ∙ sym (ap (λ p. p.1.snapshot_) made))
