-- ===== src/Peers/Iter.antt =====
-- raftify/src/peers.rs: `Peers::iter` and `SortedPeersIter`, the traversal in the order of the ids.
use riteraft_ng.Prelude.{
  ℕ, zero, suc, ◌+◌, ◌≤◌, ◌<◌, ◌≡◌, refl, sym, ◌≢◌, inl, inr, Bool, true, false, Option, none, some,
  List, [], ◌∷◌, arith, ltb, leb, ◌==◌, if◌then◌else◌, Bool-cases, length, get_elem?, All,
}
use riteraft_ng.HashMap
use riteraft_ng.HashMap.{HashMap, keys, Fresh, IsUnique, get-Fresh}
use riteraft_ng.Peers.{Peer, Peers, get}

-- Vec::sort on ids.
unfoldable pub insert_sorted : ℕ → List ℕ → List ℕ
insert_sorted k [] = k ∷ []
insert_sorted k (j ∷ js) = if leb k j then k ∷ j ∷ js else j ∷ insert_sorted k js

unfoldable pub sort : List ℕ → List ℕ
unfolding insert_sorted
sort [] = []
sort (k ∷ ks) = insert_sorted k (sort ks)

pub record SortedPeersIter : Type 0 where
  pub keys : List ℕ
  pub peers : HashMap Peer
  pub index : ℕ

unfoldable pub iter : Peers → SortedPeersIter
iter p = record { keys = sort (HashMap.keys p.inner); peers = p.inner; index = 0 }

-- `self.peers.get(&key).map(|value| (key, value))`
abbrev with_key : ℕ → Option Peer → Option (ℕ × Peer)
with_key k none = none
with_key k (some v) = some (k, v)

abbrev fetch : SortedPeersIter → Option ℕ → Option (ℕ × Peer) × SortedPeersIter
fetch it none = (none, it)
fetch it (some key) = (with_key key (HashMap.get key it.peers), record it { index = it.index + 1 })

-- The read of `keys` is within its bounds by the test.
unfoldable pub next : SortedPeersIter → Option (ℕ × Peer) × SortedPeersIter
next it =
    if ltb it.index (length it.keys) then fetch it (get_elem? it.keys it.index) else (none, it)

-- A `for` loop over the iterator, on fuel: what it yields until the first `None`.
unfoldable pub collect : ℕ → SortedPeersIter → List (ℕ × Peer)
unfolding next
collect zero it = []
collect (suc fuel) it = elim (next it).0 [
  | none ↦ []
  | some entry ↦ entry ∷ collect fuel (next it).1
]

abbrev pub IsAscending : List ℕ → Type 0
IsAscending [] = Unit {0}
IsAscending (k ∷ ks) = All (λ j. k < j) ks × IsAscending ks

-- What the sorted keys select.
select : List ℕ → HashMap Peer → List (ℕ × Peer)
select [] m = []
select (k ∷ ks) m = elim (HashMap.get k m) [ none ↦ [] | some v ↦ (k, v) ∷ select ks m ]

drop : ℕ → List ℕ → List ℕ
drop zero ks = ks
drop (suc n) [] = []
drop (suc n) (k ∷ ks) = drop n ks

drop-cons :
    (i : ℕ) (ks : List ℕ) {k : ℕ} {rest : List ℕ}
    → drop i ks ≡ k ∷ rest
    → (i < length ks) × (get_elem? ks i ≡ some k) × (drop (suc i) ks ≡ rest)
unfolding drop
drop-cons zero [] h = cc
drop-cons zero (k ∷ ks) h = (omega arith, ground arith, ground arith)
drop-cons (suc i) [] h = cc
drop-cons (suc i) (k ∷ ks) h = let (a, b, c) = drop-cons i ks h in (omega arith, b, c)

drop-nil : (i : ℕ) (ks : List ℕ) → drop i ks ≡ [] → length ks ≤ i
unfolding drop
drop-nil zero [] h = omega arith
drop-nil zero (k ∷ ks) h = cc
drop-nil (suc i) [] h = omega arith
drop-nil (suc i) (k ∷ ks) h = omega (arith, drop-nil i ks h)

collect-select :
    (fuel : ℕ) (rest : List ℕ) (it : SortedPeersIter)
    → length rest ≤ fuel
    → drop it.index it.keys ≡ rest
    → collect fuel it ≡ select rest it.peers
unfolding collect select
collect-select zero [] it b e = refl
collect-select zero (k ∷ rest) it b e = absurd (omega arith)
collect-select (suc fuel) [] it b e = ground (arith, drop-nil it.index it.keys e)
collect-select (suc fuel) (k ∷ rest) it b e =
    let (inside, here, more) = drop-cons it.index it.keys e in
    let after : SortedPeersIter = record it { index = it.index + 1 } in
    let moved : drop after.index after.keys ≡ rest = ground (arith, more) in
    ground (arith, inside, here, collect-select fuel rest after (omega arith) moved)

insert_sorted-above :
    (j k : ℕ) (ks : List ℕ) → j < k → All (λ x. j < x) ks → All (λ x. j < x) (insert_sorted k ks)
unfolding insert_sorted
insert_sorted-above j k [] h a = (h, tt)
insert_sorted-above j k (i ∷ ks) h a = ground (arith, insert_sorted-above j k ks h a.1)

above_mono : (i j : ℕ) (ks : List ℕ) → i < j → All (λ x. j < x) ks → All (λ x. i < x) ks
above_mono i j [] h a = tt
above_mono i j (k ∷ ks) h a = (omega arith, above_mono i j ks h a.1)

insert_sorted-IsAscending :
    (k : ℕ) (ks : List ℕ) → All (λ x. x ≢ k) ks → IsAscending ks → IsAscending (insert_sorted k ks)
unfolding insert_sorted
insert_sorted-IsAscending k [] new a = (tt, tt)
insert_sorted-IsAscending k (j ∷ ks) new a =
    ground (
      arith,
      above_mono k j ks,
      insert_sorted-above j k ks,
      insert_sorted-IsAscending k ks new.1 a.1,
    )

insert_sorted-All {ℓ} :
    (P : ℕ → Type ℓ) (k : ℕ) (ks : List ℕ) → P k → All P ks → All P (insert_sorted k ks)
unfolding insert_sorted
insert_sorted-All P k [] h a = (h, tt)
insert_sorted-All P k (j ∷ ks) h a = ground (arith, insert_sorted-All P k ks h a.1)

sort-Fresh : (k : ℕ) (m : HashMap Peer) → Fresh k m → All (λ x. x ≢ k) (sort (HashMap.keys m))
unfolding sort
sort-Fresh k [] h = tt
sort-Fresh k ((j, v) ∷ m) h =
    insert_sorted-All (λ x. x ≢ k) j (sort (HashMap.keys m)) h.0 (sort-Fresh k m h.1)

sort-IsAscending : (m : HashMap Peer) → IsUnique m → IsAscending (sort (HashMap.keys m))
unfolding sort
sort-IsAscending [] u = tt
sort-IsAscending ((k, v) ∷ m) u =
    insert_sorted-IsAscending k (sort (HashMap.keys m)) (sort-Fresh k m u.0)
      (sort-IsAscending m u.1)

-- Every key of the list is in the map.
abbrev Present : HashMap Peer → List ℕ → Type 0
Present m [] = Unit {0}
Present m (k ∷ ks) = (HashMap.get k m ≢ none) × Present m ks

keys-select : (ks : List ℕ) (m : HashMap Peer) → Present m ks → HashMap.keys (select ks m) ≡ ks
unfolding select
keys-select [] m h = refl
keys-select (k ∷ ks) m h = ground (arith, keys-select ks m h.1)

insert_sorted-Present :
    (m : HashMap Peer) (k : ℕ) (ks : List ℕ)
    → HashMap.get k m ≢ none
    → Present m ks
    → Present m (insert_sorted k ks)
unfolding insert_sorted
insert_sorted-Present m k [] h a = (h, tt)
insert_sorted-Present m k (j ∷ ks) h a = ground (arith, insert_sorted-Present m k ks h a.1)

Present-weaken :
    (m : HashMap Peer) (j : ℕ) (v : Peer) (ks : List ℕ) → Present m ks → Present ((j, v) ∷ m) ks
unfolding HashMap.get
Present-weaken m j v [] h = tt
Present-weaken m j v (k ∷ ks) h = (ground (arith, h.0), Present-weaken m j v ks h.1)

sort-Present : (m : HashMap Peer) → Present m (sort (HashMap.keys m))
unfolding sort HashMap.get
sort-Present [] = tt
sort-Present ((k, v) ∷ m) =
    insert_sorted-Present ((k, v) ∷ m) k (sort (HashMap.keys m)) (ground arith)
      (Present-weaken m k v (sort (HashMap.keys m)) (sort-Present m))

-- Membership of a number in a list of numbers.
contains : ℕ → List ℕ → Bool
contains j [] = false
contains j (k ∷ ks) = if k == j then true else contains j ks

contains-insert_sorted :
    (j k : ℕ) (ks : List ℕ)
    → contains j (insert_sorted k ks) ≡ (if k == j then true else contains j ks)
unfolding contains insert_sorted
contains-insert_sorted j k [] = refl
contains-insert_sorted j k (i ∷ ks) = ground (arith, contains-insert_sorted j k ks)

contains-sort :
    (j : ℕ) (m : HashMap Peer) → contains j (sort (HashMap.keys m)) ≡ false → HashMap.get j m ≡ none
unfolding sort contains HashMap.get
contains-sort j [] h = refl
contains-sort j ((k, v) ∷ m) h =
    ground (arith, contains-sort j m, contains-insert_sorted j k (sort (HashMap.keys m)))

get-select :
    (j : ℕ) (ks : List ℕ) (m : HashMap Peer)
    → Present m ks
    → HashMap.get j (select ks m) ≡ (if contains j ks then HashMap.get j m else none)
unfolding select contains HashMap.get
get-select j [] m h = refl
get-select j (k ∷ ks) m h = ground (arith, get-select j ks m h.1)

get-select-sort :
    (j : ℕ) (m : HashMap Peer) → HashMap.get j (select (sort (HashMap.keys m)) m) ≡ HashMap.get j m
get-select-sort j m = elim (Bool-cases (contains j (sort (HashMap.keys m)))) [
  | inl e ↦ rw (get-select j (sort (HashMap.keys m)) m (sort-Present m), e)
  | inr e ↦
      rw (get-select j (sort (HashMap.keys m)) m (sort-Present m), e) (sym (contains-sort j m e))
]

-- Where the identifiers are distinct and the loop takes as many steps as there are peers, a loop
-- over `iter` yields the members once each, in ascending order of their ids, and exactly as the
-- map holds them: no member is skipped and the iterator does not stop early.
pub collect-iter :
    (p : Peers) (fuel : ℕ)
    → IsUnique p.inner
    → length (sort (HashMap.keys p.inner)) ≤ fuel
    → IsAscending (HashMap.keys (collect fuel (iter p)))
      × ((j : ℕ) → HashMap.get j (collect fuel (iter p)) ≡ get j p)
unfolding iter get drop
collect-iter p fuel u b =
    let ks = sort (HashMap.keys p.inner) in
    let e = collect-select fuel ks (iter p) b refl in
    (
      rw e (rw (keys-select ks p.inner (sort-Present p.inner)) (sort-IsAscending p.inner u)),
      λ j. rw e (get-select-sort j p.inner),
    )
