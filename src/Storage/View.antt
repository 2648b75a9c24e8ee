-- ===== src/Storage/View.antt =====
-- The log that a database holds: its entries in the order of their indices, and how the
-- database's operations on keys act on them.
pub mod Entries
pub mod Slices
use mathlib.Core.Option
use riteraft_ng.Prelude.{
  ℕ, ◌+◌, ◌-◌, ◌^◌, ◌<◌, ◌≡◌, refl, ◌&&◌, not, Option, none, some, List, [], ◌∷◌, map, arith, ltb,
  leb, ◌==◌, if◌then◌else◌, All, filter,
}
use riteraft_ng.Proto.{Codec, Entry}
use riteraft_ng.Storage.Keys.{entry_key}
use riteraft_ng.Storage.Keys.Order.{lex_lt-entry_key}
use riteraft_ng.Storage.Ordered.{Pairs, insert_pair, lookup_pair, between, under}

-- Ten decimal digits.
abbrev pub key_limit : ℕ
key_limit = 10 ^ 10

abbrev pub AreSmall : List Entry → Type 0
AreSmall = All (λ e. e.index < key_limit)

-- The entry replaces the one at its index, or takes its place in the order.
unfoldable pub put_entry : Entry → List Entry → List Entry
put_entry e [] = e ∷ []
put_entry e (x ∷ xs) =
    let rest = put_entry e xs in
    if ltb e.index x.index then e ∷ x ∷ xs else if ltb x.index e.index then x ∷ rest else e ∷ xs

unfoldable pub entry_at : ℕ → List Entry → Option Entry
entry_at i [] = none
entry_at i (x ∷ xs) = if x.index == i then some x else entry_at i xs

unfoldable pub put_entries : List Entry → List Entry → List Entry
put_entries [] xs = xs
put_entries (e ∷ es) xs = put_entries es (put_entry e xs)

-- Indices run from `f` without a gap.
abbrev pub IsLog : ℕ → List Entry → Type 0
IsLog f [] = Unit {0}
IsLog f (e ∷ es) = (e.index ≡ f) × IsLog (f + 1) es

-- Strictly ascending indices.
abbrev pub IsSorted : List Entry → Type 0
IsSorted [] = Unit {0}
IsSorted (e ∷ es) = All (λ x. e.index < x.index) es × IsSorted es

module _ (c : Codec Entry) where
  unfoldable pub encode_entries : List Entry → Pairs
  encode_entries [] = []
  encode_entries (e ∷ es) = (entry_key e.index, c.encode e) ∷ encode_entries es

  pub insert_pair-encode_entries :
      (e : Entry) (es : List Entry)
      → e.index < key_limit
      → AreSmall es
      → insert_pair (entry_key e.index) (c.encode e) (encode_entries es)
        ≡ encode_entries (put_entry e es)
  unfolding insert_pair put_entry encode_entries
  insert_pair-encode_entries e [] h s = refl
  insert_pair-encode_entries e (x ∷ xs) h s =
      rw (lex_lt-entry_key e.index x.index h s.0, lex_lt-entry_key x.index e.index s.0 h)
        (ground (arith, insert_pair-encode_entries e xs h s.1))

  pub lookup_pair-encode_entries :
      (i : ℕ) (es : List Entry)
      → i < key_limit
      → AreSmall es
      → lookup_pair (entry_key i) (encode_entries es) ≡ Option.map c.encode (entry_at i es)
  unfolding lookup_pair entry_at encode_entries
  lookup_pair-encode_entries i [] h s = refl
  lookup_pair-encode_entries i (x ∷ xs) h s =
      rw (lex_lt-entry_key i x.index h s.0, lex_lt-entry_key x.index i s.0 h)
        (ground (arith, lookup_pair-encode_entries i xs h s.1))

  pub under-encode_entries :
      (i : ℕ) (es : List Entry)
      → i < key_limit
      → AreSmall es
      → filter (under (entry_key i)) (encode_entries es)
        ≡ encode_entries (filter (λ e. ltb e.index i) es)
  unfolding encode_entries
  under-encode_entries i [] h s = refl
  under-encode_entries i (x ∷ xs) h s =
      rw (lex_lt-entry_key x.index i s.0 h) (ground (arith, under-encode_entries i xs h s.1))

  pub not-under-encode_entries :
      (i : ℕ) (es : List Entry)
      → i < key_limit
      → AreSmall es
      → filter (λ p. not (under (entry_key i) p)) (encode_entries es)
        ≡ encode_entries (filter (λ e. not (ltb e.index i)) es)
  unfolding encode_entries
  not-under-encode_entries i [] h s = refl
  not-under-encode_entries i (x ∷ xs) h s =
      rw (lex_lt-entry_key x.index i s.0 h) (ground (arith, not-under-encode_entries i xs h s.1))

  pub between-encode_entries :
      (l h : ℕ) (es : List Entry)
      → l < key_limit
      → h < key_limit
      → AreSmall es
      → filter (between (entry_key l) (entry_key h)) (encode_entries es)
        ≡ encode_entries (filter (λ e. leb l e.index && ltb e.index h) es)
  unfolding encode_entries
  between-encode_entries l h [] p q s = refl
  between-encode_entries l h (x ∷ xs) p q s =
      rw (lex_lt-entry_key x.index l s.0 p, lex_lt-entry_key x.index h s.0 q)
        (ground (arith, between-encode_entries l h xs p q s.1))

  pub not-between-encode_entries :
      (i : ℕ) (es : List Entry)
      → i < key_limit
      → AreSmall es
      → filter (λ p. not (between (entry_key 0) (entry_key i) p)) (encode_entries es)
        ≡ encode_entries (filter (λ e. not (ltb e.index i)) es)
  unfolding encode_entries
  not-between-encode_entries i [] h s = refl
  not-between-encode_entries i (x ∷ xs) h s =
      rw (lex_lt-entry_key x.index 0 s.0 (omega arith), lex_lt-entry_key x.index i s.0 h)
        (ground (arith, not-between-encode_entries i xs h s.1))

  -- The iterators' `filter_map`: a value that does not decode is passed over.
  unfoldable pub decode_pairs : Pairs → List Entry
  decode_pairs [] = []
  decode_pairs ((k, v) ∷ m) = elim (c.decode v) [
    | none ↦ decode_pairs m
    | some e ↦ e ∷ decode_pairs m
  ]

  pub decode_pairs-encode_entries : (es : List Entry) → decode_pairs (encode_entries es) ≡ es
  unfolding decode_pairs encode_entries
  decode_pairs-encode_entries [] = refl
  decode_pairs-encode_entries (x ∷ xs) =
      ground (arith, c.decode-encode x, decode_pairs-encode_entries xs)
