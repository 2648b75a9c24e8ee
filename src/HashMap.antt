-- ===== src/HashMap.antt =====
-- std::collections::HashMap with u64 keys, as the crate uses it (raftify/src/peers.rs,
-- raftify/src/raft_node/mod.rs): an association list in some order.
use riteraft_ng.Prelude.{
  ℕ, ◌≡◌, ◌≢◌, refl, Option, none, some, List, [], ◌∷◌, arith, ◌==◌, if◌then◌else◌,
}

abbrev pub HashMap {ℓ} : Type ℓ → Type ℓ
HashMap V = List (ℕ × V)

module _ {ℓ} {V : Type ℓ} where
  unfoldable pub get : ℕ → HashMap V → Option V
  get k [] = none
  get k ((j, v) ∷ m) = if j == k then some v else get k m

  unfoldable pub insert : ℕ → V → HashMap V → HashMap V
  insert key value [] = (key, value) ∷ []
  insert key value ((old, w) ∷ rest) =
      if old == key then (key, value) ∷ rest else (old, w) ∷ insert key value rest

  unfoldable pub remove : ℕ → HashMap V → HashMap V
  remove k [] = []
  remove k ((j, w) ∷ m) = if j == k then m else (j, w) ∷ remove k m

  abbrev pub keys : HashMap V → List ℕ
  keys [] = []
  keys ((k, v) ∷ m) = k ∷ keys m

  abbrev pub Fresh : ℕ → HashMap V → Type 0
  Fresh k [] = Unit {0}
  Fresh k ((j, v) ∷ m) = (j ≢ k) × Fresh k m

  -- No key stands twice.
  abbrev pub IsUnique : HashMap V → Type 0
  IsUnique [] = Unit {0}
  IsUnique ((k, v) ∷ m) = Fresh k m × IsUnique m

  pub get-Fresh : (k : ℕ) (m : HashMap V) → Fresh k m → get k m ≡ none
  unfolding get
  get-Fresh k [] h = refl
  get-Fresh k ((j, v) ∷ m) h = ground (arith, get-Fresh k m h.1)

  pub get-insert :
      (j k : ℕ) (v : V) (m : HashMap V)
      → get j (insert k v m) ≡ (if k == j then some v else get j m)
  unfolding get insert
  get-insert j k v [] = refl
  get-insert j k v ((i, w) ∷ m) = ground (arith, get-insert j k v m)

  pub get-remove :
      (j k : ℕ) (m : HashMap V)
      → IsUnique m
      → get j (remove k m) ≡ (if k == j then none else get j m)
  unfolding get remove
  get-remove j k [] u = ground arith
  get-remove j k ((i, w) ∷ m) u = ground (arith, get-remove j k m u.1, get-Fresh j m)

  pub Fresh-insert : (j k : ℕ) (v : V) (m : HashMap V) → k ≢ j → Fresh j m → Fresh j (insert k v m)
  unfolding insert
  Fresh-insert j k v [] ne h = (ne, tt)
  Fresh-insert j k v ((i, w) ∷ m) ne h = ground (arith, Fresh-insert j k v m ne h.1)

  pub Fresh-remove : (j k : ℕ) (m : HashMap V) → Fresh j m → Fresh j (remove k m)
  unfolding remove
  Fresh-remove j k [] h = tt
  Fresh-remove j k ((i, w) ∷ m) h = ground (arith, Fresh-remove j k m h.1)

  pub insert-IsUnique : (k : ℕ) (v : V) (m : HashMap V) → IsUnique m → IsUnique (insert k v m)
  unfolding insert
  insert-IsUnique k v [] u = (tt, tt)
  insert-IsUnique k v ((i, w) ∷ m) u =
      ground (arith, insert-IsUnique k v m u.1, Fresh-insert i k v m)

  pub remove-IsUnique : (k : ℕ) (m : HashMap V) → IsUnique m → IsUnique (remove k m)
  unfolding remove
  remove-IsUnique k [] u = tt
  remove-IsUnique k ((i, w) ∷ m) u = ground (arith, remove-IsUnique k m u.1, Fresh-remove i k m)
