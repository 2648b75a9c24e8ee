-- ===== src/Storage/Keys/Order.antt =====
-- raftify/src/storage/heed_storage/codec.rs: keys are read back, and their order is the order of
-- the indices as long as these have ten digits.
use native.Mathlib.Decide.{dec_lt}
use native.Mathlib.Nat.{mod-eq_of_lt, pow-succ', div-div-eq-div-mul}
use riteraft_ng.Prelude.{
  ℕ, zero, suc, ◌+◌, ◌/◌, ◌%◌, ◌^◌, ◌≤◌, ◌<◌, max, ◌≡◌, refl, sym, ap, ◌∙◌, true, some, [], ◌∷◌,
  ◌++◌, arith, ltb, lt→ltb, length,
}
use riteraft_ng.Outcome.{ok}
use riteraft_ng.Proto.{Bytes}
use riteraft_ng.Storage.Keys.{
  fixed_digits, count_digits, to_string, entry_key, parse, parse_digits, format_entry_key_string,
  lex_lt, parse-fixed_digits, lex_lt-fixed_digits, count_digits_enough, entry_key_width, pow_mono,
  count_digits-le,
}

-- Below ten digits the byte order of the keys is the order of the indices.
pub lex_lt-entry_key :
    (a b : ℕ) → a < 10 ^ 10 → b < 10 ^ 10 → lex_lt (entry_key a) (entry_key b) ≡ ltb a b
lex_lt-entry_key a b ha hb = rw (
  entry_key_width a ha,
  entry_key_width b hb,
  lex_lt-fixed_digits 10 a b,
  mod-eq_of_lt ha,
  mod-eq_of_lt hb,
)

parse-cons :
    (c : ℕ) (cs : Bytes) (n : ℕ)
    → parse_digits 0 (c ∷ cs) ≡ some n
    → n < 2 ^ 64
    → parse (c ∷ cs) ≡ some n
unfolding parse
parse-cons c cs n h b = rw (h, parse) (rw (lt→ltb n (2 ^ 64) b))

parse-wide : (w n : ℕ) → 0 < w → n < 10 ^ w → n < 2 ^ 64 → parse (fixed_digits w n) ≡ some n
unfolding fixed_digits
parse-wide zero n p h b = absurd (omega arith)
parse-wide (suc w) n p h b =
    parse-cons _ _ n
      (let e : n % 10 ^ suc w ≡ n = mod-eq_of_lt h in
        parse-fixed_digits (suc w) 0 n ∙ ap some (omega (arith, e)))
      b

count_digits_pos : (fuel n : ℕ) → 0 < count_digits fuel n
unfolding count_digits
count_digits_pos zero n = omega arith
count_digits_pos (suc fuel) n = ground (arith, count_digits_pos fuel (n / 10))

pub parse-to_string : (n : ℕ) → n < 2 ^ 64 → parse (to_string n) ≡ some n
unfolding to_string
parse-to_string n h =
    parse-wide (count_digits 20 n) n (count_digits_pos 20 n)
      (count_digits_enough 20 n (omega arith)) h

-- The key of every 64-bit index is read back as that index, and formatting its decimal text, as the
-- database's encoder does, never panics and gives the key.
pub parse-entry_key :
    (n : ℕ)
    → n < 2 ^ 64
    → (parse (entry_key n) ≡ some n) × (format_entry_key_string (to_string n) ≡ ok (entry_key n))
unfolding entry_key format_entry_key_string
parse-entry_key n h =
    let w = count_digits 20 n in
    let enough : n < 10 ^ w = count_digits_enough 20 n (omega arith) in
    let wide : n < 10 ^ max 10 w = omega (arith, pow_mono w (max 10 w) (omega arith)) in
    (parse-wide (max 10 w) n (omega arith) wide h, rw (parse-to_string n h))

fixed_digits-last :
    (w n : ℕ) → fixed_digits (suc w) n ≡ fixed_digits w (n / 10) ++ (48 + n % 10) ∷ []
unfolding fixed_digits
fixed_digits-last zero n = ground arith
fixed_digits-last (suc w) n =
    let e : n / 10 ^ suc w ≡ n / 10 / 10 ^ w =
      rw (pow-succ' 10 w) (sym (div-div-eq-div-mul n 10 (10 ^ w))) in
    ground (arith, e, fixed_digits-last w n)

lex_lt-append :
    (xs ys zs : Bytes) → length xs ≡ length ys → lex_lt xs ys ≡ true → lex_lt (xs ++ zs) ys ≡ true
unfolding lex_lt
lex_lt-append [] [] zs l h = cc
lex_lt-append [] (y ∷ ys) zs l h = absurd (omega arith)
lex_lt-append (x ∷ xs) [] zs l h = cc
lex_lt-append (x ∷ xs) (y ∷ ys) zs l h = ground (arith, lex_lt-append xs ys zs)

length-fixed_digits : (w n : ℕ) → length (fixed_digits w n) ≡ w
unfolding fixed_digits
length-fixed_digits zero n = refl
length-fixed_digits (suc w) n = ap suc (length-fixed_digits w n)

eleven_digits : (a : ℕ) → 10 ^ 10 ≤ a → a < 10 ^ 11 → entry_key a ≡ fixed_digits 11 a
unfolding entry_key
eleven_digits a l h =
    let c = count_digits 20 a in
    let enough : a < 10 ^ c = count_digits_enough 20 a (omega arith) in
    let long : 10 < c = elim (dec_lt 10 c) [
      | yes y ↦ y
      | no n ↦ absurd (omega (arith, enough, pow_mono c 10 (omega arith)))
    ] in
    let e : max 10 c ≡ 11 = omega (arith, count_digits-le 20 10 a h) in rw e

-- Past ten digits the order of the keys is not the order of the indices: an index of eleven digits
-- has a smaller key than every index of ten digits above its first ten, although it is the greater
-- index.
pub lex_lt_breaks :
    (a b : ℕ)
    → 10 ^ 10 ≤ a
    → a < 10 ^ 11
    → b < 10 ^ 10
    → a / 10 < b
    → (b < a) × (lex_lt (entry_key a) (entry_key b) ≡ true)
lex_lt_breaks a b l h hb less =
    let small : a / 10 < 10 ^ 10 = omega arith in
    let first : lex_lt (fixed_digits 10 (a / 10)) (fixed_digits 10 b) ≡ true =
      rw (lex_lt-fixed_digits 10 (a / 10) b, mod-eq_of_lt small, mod-eq_of_lt hb)
        (lt→ltb _ _ less) in
    (
      omega arith,
      rw (eleven_digits a l h, entry_key_width b hb, fixed_digits-last 10 a)
          (lex_lt-append (fixed_digits 10 (a / 10)) (fixed_digits 10 b) _
            (length-fixed_digits 10 (a / 10) ∙ sym (length-fixed_digits 10 b)) first),
    )
