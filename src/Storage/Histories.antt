-- ===== src/Storage/Histories.antt =====
-- raftify/src/storage/mod.rs: what the trait `StableStorage` promises of the log, and what follows
-- for every sequence of writes.
pub mod Stores
use riteraft_ng.Prelude.{ℕ, ◌^◌, ◌≤◌, ◌<◌, ◌≡◌, refl, ◌∙◌, not, List, [], ◌∷◌, ltb, filter}
use riteraft_ng.Outcome.{Outcome, ok}
use riteraft_ng.Exec.{Exec, pure, ◌>>=◌, ◌>>◌, >>=-ok}
use riteraft_ng.Proto.{Entry}
use riteraft_ng.Storage.View.{AreSmall, key_limit, put_entries}
use riteraft_ng.Storage.Heed.Core.{next_index}
use riteraft_ng.Storage.Heed.Log.{greatest}
use riteraft_ng.Node.State.{StableStorage}

-- The log that a store is told to hold, the last index that it reports, and the index of its
-- snapshot.
pub record Log : Type 0 where
  pub entries : List Entry
  pub last : ℕ
  pub snapshot_index : ℕ

pub data Write : Type 0 where
  appends : (n : Entry) (ns : List Entry) → Write
  compacts : (index : ℕ) → Write

unfoldable pub written : Write → Log → Log
written (appends n ns) l = record l {
  entries = put_entries (n ∷ ns) l.entries;
  last = greatest l.last (n ∷ ns);
}
written (compacts index) l = record l { entries = filter (λ e. not (ltb e.index index)) l.entries }

unfoldable pub all_written : List Write → Log → Log
all_written [] l = l
all_written (w ∷ ws) l = all_written ws (written w l)

-- The first index of a log: of its first entry, or after the snapshot where there is none.
abbrev pub first_of : ℕ → List Entry → ℕ
first_of snapshot_index [] = next_index snapshot_index
first_of snapshot_index (x ∷ xs) = x.index

-- Entries of ten-digit indices that start neither below the first index nor after a gap; and a
-- compaction at an index of ten digits.
abbrev pub IsAllowed : Write → Log → Type 0
IsAllowed (appends n ns) l =
    AreSmall (n ∷ ns)
    × (first_of l.snapshot_index l.entries ≤ n.index)
    × (n.index ≤ next_index l.last)
    × (greatest l.last (n ∷ ns) < 2 ^ 64)
IsAllowed (compacts index) l = index < key_limit

abbrev pub AreAllowed : List Write → Log → Type 0
AreAllowed [] l = Unit {0}
AreAllowed (w ∷ ws) l = IsAllowed w l × AreAllowed ws (written w l)

-- A store of the log: `Holds` says of a state that it holds the log and reports its last index.
pub record LogStore {S : Type 0} (storage : StableStorage S)
    (all_entries : S → Outcome (List Entry)) : Type 1 where
  pub Holds : Log → S → Type 0
  pub append_law :
      (n : Entry) (ns : List Entry) (l : Log) (s : S)
      → Holds l s
      → IsAllowed (appends n ns) l
      → (t : S) × (storage.append (n ∷ ns) s ≡ (ok tt, t)) × Holds (written (appends n ns) l) t
  pub compact_law :
      (index : ℕ) (l : Log) (s : S)
      → Holds l s
      → IsAllowed (compacts index) l
      → (t : S) × (storage.compact index s ≡ (ok tt, t)) × Holds (written (compacts index) l) t
  pub read_law :
      (l : Log) (s : S)
      → Holds l s
      → (all_entries s ≡ ok l.entries) × (storage.last_index s ≡ ok l.last)

module _ {S : Type 0} (storage : StableStorage S) where
  abbrev write : Write → Exec S Unit
  write (appends n ns) = storage.append (n ∷ ns)
  write (compacts index) = storage.compact index

  unfoldable pub write_all : List Write → Exec S Unit
  write_all [] = pure tt
  write_all (w ∷ ws) = do write w; write_all ws

module _ {S : Type 0} {storage : StableStorage S} {all_entries : S → Outcome (List Entry)}
    (store : LogStore storage all_entries) where
  write-Holds :
      (w : Write) (l : Log) (s : S)
      → store.Holds l s
      → IsAllowed w l
      → (t : S) × (write storage w s ≡ (ok tt, t)) × store.Holds (written w l) t
  write-Holds (appends n ns) l s h a = store.append_law n ns l s h a
  write-Holds (compacts index) l s h a = store.compact_law index l s h a

  write_all-Holds :
      (ws : List Write) (l : Log) (s : S)
      → store.Holds l s
      → AreAllowed ws l
      → (t : S) × (write_all storage ws s ≡ (ok tt, t)) × store.Holds (all_written ws l) t
  unfolding write_all all_written
  write_all-Holds [] l s h a = (s, refl, h)
  write_all-Holds (w ∷ ws) l s h a =
      let (t, e, k) = write-Holds w l s h a.0 in
      let (u, f, j) = write_all-Holds ws (written w l) t k a.1 in
      (u, >>=-ok (write storage w) (λ _. write_all storage ws) s e ∙ f, j)

module _ {S T : Type 0} {one : StableStorage S} {other : StableStorage T}
    {all_one : S → Outcome (List Entry)} {all_other : T → Outcome (List Entry)} where
  -- Two stores that keep the promises of the trait and hold the same log take every sequence of
  -- allowed appends and compactions without an error, and both hold afterwards what the sequence
  -- makes of the log: all entries and the last index are read alike.
  pub write_all-agree :
      (a : LogStore one all_one) (b : LogStore other all_other) (ws : List Write) (l : Log) (s : S)
      (t : T)
      → a.Holds l s
      → b.Holds l t
      → AreAllowed ws l
      → (u : S) × (v : T) × (write_all one ws s ≡ (ok tt, u))
        × (write_all other ws t ≡ (ok tt, v))
        × (all_one u ≡ ok (all_written ws l).entries)
        × (all_other v ≡ ok (all_written ws l).entries)
        × (one.last_index u ≡ ok (all_written ws l).last)
        × (other.last_index v ≡ ok (all_written ws l).last)
  write_all-agree a b ws l s t h k w =
      let (u, e, i) = write_all-Holds a ws l s h w in
      let (v, f, j) = write_all-Holds b ws l t k w in
      let (r1, r2) = a.read_law (all_written ws l) u i in
      let (q1, q2) = b.read_law (all_written ws l) v j in (u, v, e, f, r1, q1, r2, q2)
