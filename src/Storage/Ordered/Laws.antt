-- ===== src/Storage/Ordered/Laws.antt =====
-- Lookups after an insertion, in the order of byte strings.
use riteraft_ng.Prelude.{◌≡◌, refl, ◌⊎◌, inl, inr, true, false, some, [], ◌∷◌, arith}
use riteraft_ng.Proto.{Bytes}
use riteraft_ng.Storage.Keys.{lex_lt}
use riteraft_ng.Storage.Ordered.{Pairs, insert_pair, lookup_pair}

pub lex_lt_irrefl : (a : Bytes) → lex_lt a a ≡ false
unfolding lex_lt
lex_lt_irrefl [] = refl
lex_lt_irrefl (x ∷ xs) = ground (arith, lex_lt_irrefl xs)

pub lex_lt_antisymm : (a b : Bytes) → lex_lt a b ≡ false → lex_lt b a ≡ false → a ≡ b
unfolding lex_lt
lex_lt_antisymm [] [] h k = refl
lex_lt_antisymm [] (y ∷ ys) h k = cc
lex_lt_antisymm (x ∷ xs) [] h k = cc
lex_lt_antisymm (x ∷ xs) (y ∷ ys) h k = ground (arith, lex_lt_antisymm xs ys)

pub lookup_pair-insert_pair_self :
    (k v : Bytes) (m : Pairs) → lookup_pair k (insert_pair k v m) ≡ some v
unfolding lookup_pair insert_pair
lookup_pair-insert_pair_self k v [] = ground (arith, lex_lt_irrefl k)
lookup_pair-insert_pair_self k v ((j, w) ∷ m) =
    ground (arith, lex_lt_irrefl k, lookup_pair-insert_pair_self k v m)

-- Two keys that the order tells apart.
abbrev pub Differ : Bytes → Bytes → Type 0
Differ j k = (lex_lt j k ≡ true) ⊎ (lex_lt k j ≡ true)

pub Differ-sym : (j k : Bytes) → Differ j k → Differ k j
Differ-sym j k (inl h) = inr h
Differ-sym j k (inr h) = inl h

pub lookup_pair-insert_pair_ne :
    (j k v : Bytes) (m : Pairs) → Differ j k → lookup_pair j (insert_pair k v m) ≡ lookup_pair j m
unfolding lookup_pair insert_pair
lookup_pair-insert_pair_ne j k v [] d = ground arith
lookup_pair-insert_pair_ne j k v ((i, w) ∷ m) d =
    ground (arith, lex_lt_antisymm k i, lookup_pair-insert_pair_ne j k v m d)
