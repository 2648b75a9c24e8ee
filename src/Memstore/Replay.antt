-- ===== src/Memstore/Replay.antt =====
-- examples/memstore/src/state_machine.rs: a replica that starts from a snapshot reads like one that
-- applied every entry.
mod Examples
use riteraft_ng.Prelude.{
  ℕ, String, ◌≡◌, refl, sym, Option, some, List, [], ◌∷◌, ◌++◌, ◌==◌, if◌then◌else◌,
}
use riteraft_ng.Outcome.{ok}
use riteraft_ng.Exec.{Exec, pure, ◌>>=◌, ◌>>◌}
use riteraft_ng.HashMap.{get-insert}
use riteraft_ng.Proto.{Bytes, Codec}
use riteraft_ng.Memstore
use riteraft_ng.Memstore.{LogEntry, insert, HashStore, apply_entry}

-- The value that was inserted last for a key.
pub last_value : ℕ → List LogEntry → Option String → Option String
last_value k [] before = before
last_value k (insert key value ∷ es) before =
    last_value k es (if key == k then some value else before)

module _ (log_entry : Codec LogEntry) (map : Codec HashStore) where
  -- A state machine is given the entries of the log in order.
  unfoldable pub apply_all : List LogEntry → Exec HashStore Unit
  apply_all [] = pure tt
  apply_all (e ∷ es) = do Memstore.apply log_entry map (log_entry.encode e); apply_all es

  pub apply-encode :
      (e : LogEntry) (s : HashStore)
      → Memstore.apply log_entry map (log_entry.encode e) s
        ≡ (ok (log_entry.encode e), apply_entry e s)
  unfolding Memstore.apply ◌>>=◌
  apply-encode e s = rw (log_entry.decode-encode e)

  pub replay : List LogEntry → HashStore → HashStore
  replay [] s = s
  replay (e ∷ es) s = replay es (apply_entry e s)

  pub apply_all-replay :
      (es : List LogEntry) (s : HashStore) → apply_all es s ≡ (ok tt, replay es s)
  unfolding apply_all replay ◌>>=◌
  apply_all-replay [] s = refl
  apply_all-replay (e ∷ es) s = rw (apply-encode e s) (apply_all-replay es (apply_entry e s))

  pub get-replay :
      (k : ℕ) (es : List LogEntry) (s : HashStore)
      → Memstore.get k (replay es s) ≡ last_value k es (Memstore.get k s)
  unfolding replay last_value Memstore.get
  get-replay k [] s = refl
  get-replay k (insert key value ∷ es) s =
      rw (← get-insert k key value s) (get-replay k es (apply_entry (insert key value) s))

  replay-append :
      (es fs : List LogEntry) (s : HashStore) → replay (es ++ fs) s ≡ replay fs (replay es s)
  unfolding replay
  replay-append [] fs s = refl
  replay-append (e ∷ es) fs s = replay-append es fs (apply_entry e s)

  -- A replica that restores the snapshot which another took after some entries, and then applies
  -- the later ones, ends without an error in the state of a third that applied all of them, whatever
  -- it held before; and it reads the value that was inserted last for each key.
  pub restore-snapshot_replay :
      (es fs : List LogEntry) (s other : HashStore) (k : ℕ)
      → let taken = (apply_all es >> Memstore.snapshot log_entry map) s in
        let restored = λ (b : Bytes). (Memstore.restore log_entry map b >> apply_all fs) other in
        (b : Bytes) × (taken.0 ≡ ok b)
        × (restored b ≡ apply_all (es ++ fs) s)
        × (Memstore.get k (restored b).1 ≡ last_value k (es ++ fs) (Memstore.get k s))
  unfolding Memstore.snapshot Memstore.restore ◌>>=◌
  restore-snapshot_replay es fs s other k =
      let all : apply_all (es ++ fs) s ≡ (ok tt, replay fs (replay es s)) =
        rw (replay-append es fs s) at (apply_all-replay (es ++ fs) s) in
      let back = map.decode-encode (replay es s) in
      let later = apply_all-replay fs (replay es s) in
      (
        map.encode (replay es s),
        rw (apply_all-replay es s),
        rw (back, later) (sym all),
        rw (back, later) (rw (replay-append es fs s) at (get-replay k (es ++ fs) s)),
      )
