-- ===== src/Samples/Texts.antt =====
-- Encodings of texts, by the numbers of their characters, and of the entries and the map of the
-- example's state machine.
use Prim.Native.Char.{Char, char, code, IsScalar}
use Prim.Native.Nat.{compare, Ordering}
use Prim.Native.String as Text
use text.Mathlib.TextEquality.{IsScalar-prop}
use mathlib.Core.Option
use riteraft_ng.Proto.{Bytes, Codec}
use riteraft_ng.Memstore.{HashStore, LogEntry, insert}
use riteraft_ng.Prelude.{
  arith, length, ◌-◌, ◌<◌, ◌≤◌, ℕ, zero, suc, String, ◌≡◌, refl, ap, Option, none, some, [], ◌∷◌,
}

unfoldable pub scalar :
    (n : ℕ) (o p q : Ordering)
    → compare n 55296 ≡ o
    → compare 57343 n ≡ p
    → compare n 1114112 ≡ q
    → Option (IsScalar n)
scalar n Ordering.lt p q e f g = some (rw e tt)
scalar n Ordering.eq Ordering.lt Ordering.lt e f g = some (rw (e, f, g) tt)
scalar n Ordering.gt Ordering.lt Ordering.lt e f g = some (rw (e, f, g) tt)
scalar n o p q e f g = none

scalar-some :
    (n : ℕ) (o p q : Ordering) (e : compare n 55296 ≡ o) (f : compare 57343 n ≡ p)
    (g : compare n 1114112 ≡ q) (h : IsScalar n)
    → scalar n o p q e f g ≡ some h
unfolding scalar
scalar-some n Ordering.lt p q e f g h = ap some (IsScalar-prop n _ h)
scalar-some n Ordering.eq Ordering.lt Ordering.lt e f g h = ap some (IsScalar-prop n _ h)
scalar-some n Ordering.gt Ordering.lt Ordering.lt e f g h = ap some (IsScalar-prop n _ h)
scalar-some n Ordering.eq Ordering.lt Ordering.eq e f g h = elim (rw (e, f, g) at h) [ ]
scalar-some n Ordering.eq Ordering.lt Ordering.gt e f g h = elim (rw (e, f, g) at h) [ ]
scalar-some n Ordering.eq Ordering.eq q e f g h = elim (rw (e, f) at h) [ ]
scalar-some n Ordering.eq Ordering.gt q e f g h = elim (rw (e, f) at h) [ ]
scalar-some n Ordering.gt Ordering.lt Ordering.eq e f g h = elim (rw (e, f, g) at h) [ ]
scalar-some n Ordering.gt Ordering.lt Ordering.gt e f g h = elim (rw (e, f, g) at h) [ ]
scalar-some n Ordering.gt Ordering.eq q e f g h = elim (rw (e, f) at h) [ ]
scalar-some n Ordering.gt Ordering.gt q e f g h = elim (rw (e, f) at h) [ ]

unfoldable pub char_of : ℕ → Option Char
char_of n =
    Option.map (char n)
      (scalar n (compare n 55296) (compare 57343 n) (compare n 1114112) refl refl refl)

char_of-code : (c : Char) → char_of (code c) ≡ some c
unfolding char_of
char_of-code (char n h) =
    ap (Option.map (char n))
      (scalar-some n (compare n 55296) (compare 57343 n) (compare n 1114112) refl refl refl h)

abbrev put_text : String → Bytes → Bytes
put_text Text.[] rest = 0 ∷ rest
put_text (Text.◌∷◌ c s) rest = 1 ∷ code c ∷ put_text s rest

abbrev with_char : Option Char → Option (String × Bytes) → Option (String × Bytes)
with_char none r = none
with_char (some c) none = none
with_char (some c) (some (s, rest)) = some (Text.◌∷◌ c s, rest)

unfoldable pub read_text : Bytes → Option (String × Bytes)
read_text [] = none
read_text (zero ∷ rest) = some ("", rest)
read_text (suc t ∷ []) = none
read_text (suc t ∷ n ∷ rest) = with_char (char_of n) (read_text rest)

read_text-put_text : (s : String) (rest : Bytes) → read_text (put_text s rest) ≡ some (s, rest)
unfolding read_text
read_text-put_text Text.[] rest = refl
read_text-put_text (Text.◌∷◌ c s) rest = rw (char_of-code c, read_text-put_text s rest)

abbrev put_entry : LogEntry → Bytes
put_entry (insert key value) = key ∷ put_text value []

abbrev read_entry : Bytes → Option LogEntry
read_entry [] = none
read_entry (key ∷ rest) = Option.map (λ (s, rest). insert key s) (read_text rest)

pub read_entry-put_entry : (e : LogEntry) → read_entry (put_entry e) ≡ some e
read_entry-put_entry (insert key value) = rw (read_text-put_text value [])

abbrev pub log_entry_codec : Codec LogEntry
log_entry_codec = record {
  encode = put_entry;
  decode = read_entry;
  decode-encode = read_entry-put_entry;
}

abbrev put_map : HashStore → Bytes
put_map [] = []
put_map ((k, v) ∷ m) = suc k ∷ put_text v (put_map m)

abbrev with_value : ℕ → Option (String × Bytes) → (Bytes → Option HashStore) → Option HashStore
with_value k none f = none
with_value k (some (v, rest)) f = Option.map (λ m. (k, v) ∷ m) (f rest)

-- The fuel is the number of bytes, which is more than the number of pairs.
unfoldable pub read_map : ℕ → Bytes → Option HashStore
read_map zero [] = some []
read_map zero (k ∷ rest) = none
read_map (suc fuel) [] = some []
read_map (suc fuel) (k ∷ rest) = with_value (k - 1) (read_text rest) (read_map fuel)

put_text-length : (s : String) (rest : Bytes) → length rest < length (put_text s rest)
put_text-length Text.[] rest = omega arith
put_text-length (Text.◌∷◌ c s) rest = omega (arith, put_text-length s rest)

pub read_map-put_map :
    (m : HashStore) (fuel : ℕ) → length (put_map m) ≤ fuel → read_map fuel (put_map m) ≡ some m
unfolding read_map
read_map-put_map [] zero h = refl
read_map-put_map [] (suc fuel) h = refl
read_map-put_map ((k, v) ∷ m) zero h = absurd (omega arith)
read_map-put_map ((k, v) ∷ m) (suc fuel) h =
    let rest = read_map-put_map m fuel (omega (arith, put_text-length v (put_map m))) in
    rw (read_text-put_text v (put_map m), rest) (ap (λ (j : ℕ). some ((j, v) ∷ m)) (omega arith))

abbrev pub hash_store_codec : Codec HashStore
hash_store_codec = record {
  encode = put_map;
  decode = λ b. read_map (length b) b;
  decode-encode = λ m. read_map-put_map m (length (put_map m)) (omega arith);
}
