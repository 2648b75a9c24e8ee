-- ===== src/Storage/Keys.antt =====
-- raftify/src/storage/heed_storage/codec.rs and rocksdb_storage/codec.rs: the keys of the log,
-- decimal texts padded with zeros to ten digits, and the order in which a database keeps them.
pub mod Order
use native.Mathlib.Nat.{div-add-mod, mod-lt, div-div-eq-div-mul, pow-suc}
use native.Mathlib.Numerals.{add-one}
use riteraft_ng.Prelude.{
  ℕ, zero, suc, ◌+◌, ◌-◌, ◌*◌, ◌/◌, ◌%◌, ◌^◌, ◌≤◌, ◌<◌, max, ◌≡◌, ap, inl, inr, Bool, true, false,
  ◌&&◌, Option, none, some, [], ◌∷◌, arith, ltb, leb, if◌then◌else◌, ltb→lt, Bool-cases,
}
use riteraft_ng.Outcome.{Outcome, ok, unwrap, ◌>>=◌}
use riteraft_ng.Proto.{Bytes}

abbrev pub entry_key_length : ℕ
entry_key_length = 10

-- The `w` last decimal digits of `n`, as characters, most significant first.
unfoldable pub fixed_digits : ℕ → ℕ → Bytes
fixed_digits zero n = []
fixed_digits (suc w) n = (48 + n / 10 ^ w % 10) ∷ fixed_digits w n

-- The number of decimal digits; twenty rounds are enough for 64 bits.
unfoldable pub count_digits : ℕ → ℕ → ℕ
count_digits zero n = 1
count_digits (suc fuel) n =
    let rest = count_digits fuel (n / 10) in if ltb n 10 then 1 else rest + 1

-- `n.to_string()` of a u64.
unfoldable pub to_string : ℕ → Bytes
to_string n = fixed_digits (count_digits 20 n) n

-- `format!("{:0width$}", n, width = ENTRY_KEY_LENGTH)`
unfoldable pub entry_key : ℕ → Bytes
entry_key n = fixed_digits (max entry_key_length (count_digits 20 n)) n

abbrev is_digit : ℕ → Bool
is_digit c = leb 48 c && leb c 57

unfoldable pub parse_digits : ℕ → Bytes → Option ℕ
parse_digits acc [] = some acc
parse_digits acc (c ∷ cs) =
    let rest = parse_digits (acc * 10 + (c - 48)) cs in if is_digit c then rest else none

-- `str::parse::<u64>`, without its leading plus sign.
unfoldable pub parse : Bytes → Option ℕ
parse [] = none
parse (c ∷ cs) = elim (parse_digits 0 (c ∷ cs)) [
  | none ↦ none
  | some n ↦ if ltb n (2 ^ 64) then some n else none
]

-- codec.rs: the key is parsed and printed anew.
unfoldable pub format_entry_key_string : Bytes → Outcome Bytes
format_entry_key_string s = unwrap (parse s) >>= λ n. ok (entry_key n)

-- The order of byte strings.
unfoldable pub lex_lt : Bytes → Bytes → Bool
lex_lt [] [] = false
lex_lt [] (y ∷ ys) = true
lex_lt (x ∷ xs) [] = false
lex_lt (x ∷ xs) (y ∷ ys) = if ltb x y then true else if ltb y x then false else lex_lt xs ys

pow_pos : (w : ℕ) → 0 < 10 ^ w
pow_pos zero = omega arith
pow_pos (suc w) = rw pow-suc (omega (arith, pow_pos w))

split_digit : (b n : ℕ) → 0 < b → n % (b * 10) ≡ n / b % 10 * b + n % b
split_digit b n h =
    let q = n / b in
    omega (
      arith,
      div-add-mod n b,
      div-add-mod n (b * 10),
      ap (λ t. b * t) (div-add-mod q 10),
      ap (λ t. b * 10 * t) (div-div-eq-div-mul n b 10),
    )

digit_back : (d : ℕ) → 48 + d - 48 ≡ d
digit_back d = omega arith

parse-fixed_digits :
    (w acc n : ℕ) → parse_digits acc (fixed_digits w n) ≡ some (acc * 10 ^ w + n % 10 ^ w)
unfolding parse_digits fixed_digits
parse-fixed_digits zero acc n = ground arith
parse-fixed_digits (suc w) acc n =
    let d = n / 10 ^ w % 10 in
    let value : (acc * 10 + (48 + d - 48)) * 10 ^ w + n % 10 ^ w
        ≡ acc * 10 ^ suc w + n % 10 ^ suc w =
      rw (pow-suc 10 w, split_digit (10 ^ w) n (pow_pos w))
        (omega (arith, ap (λ t. (acc * 10 + t) * 10 ^ w) (digit_back d))) in
    ground (arith, value, parse-fixed_digits w (acc * 10 + (48 + d - 48)) n)

lex_lt_step : (p a b ra rb : ℕ) → ra < p → rb < p → a < b → a * p + ra < b * p + rb
lex_lt_step p a b ra rb ha hb h = grind arith

lex_lt-fixed_digits :
    (w a b : ℕ) → lex_lt (fixed_digits w a) (fixed_digits w b) ≡ ltb (a % 10 ^ w) (b % 10 ^ w)
unfolding lex_lt fixed_digits
lex_lt-fixed_digits zero a b = ground arith
lex_lt-fixed_digits (suc w) a b =
    let p = 10 ^ w in
    let da = a / p % 10 in
    let db = b / p % 10 in
    rw
      (
        pow-suc 10 w,
        split_digit p a (pow_pos w),
        split_digit p b (pow_pos w),
        lex_lt-fixed_digits w a b,
      )
      (ground (
        arith,
        mod-lt a (pow_pos w),
        mod-lt b (pow_pos w),
        lex_lt_step p da db (a % p) (b % p),
        lex_lt_step p db da (b % p) (a % p),
      ))

pow_mono : (v w : ℕ) → v ≤ w → 10 ^ v ≤ 10 ^ w
pow_mono zero w h = omega (arith, pow_pos w)
pow_mono (suc v) zero h = absurd (omega arith)
pow_mono (suc v) (suc w) h =
    rw (pow-suc 10 v, pow-suc 10 w) (omega (arith, pow_mono v w (omega arith)))

count_digits-le : (fuel k n : ℕ) → n < 10 ^ suc k → count_digits fuel n ≤ suc k
unfolding count_digits
count_digits-le zero k n h = omega arith
count_digits-le (suc fuel) zero n h = ground arith
count_digits-le (suc fuel) (suc k) n h =
    let small : n / 10 < 10 ^ suc k = omega (arith, pow-suc 10 (suc k)) in
    ground (arith, count_digits-le fuel k (n / 10) small)

count_digits_enough : (fuel n : ℕ) → n < 10 ^ suc fuel → n < 10 ^ count_digits fuel n
unfolding count_digits
count_digits_enough zero n h = h
count_digits_enough (suc fuel) n h =
    let rest = count_digits fuel (n / 10) in
    let small : n / 10 < 10 ^ rest =
      count_digits_enough fuel (n / 10) (omega (arith, pow-suc 10 (suc fuel))) in
    let big : n < 10 ^ suc rest = omega (arith, pow-suc 10 rest) in
    elim (Bool-cases (ltb n 10)) [ inl e ↦ rw e (ltb→lt n 10 e) | inr e ↦ rw (e, add-one) big ]

entry_key_width : (n : ℕ) → n < 10 ^ 10 → entry_key n ≡ fixed_digits 10 n
unfolding entry_key
entry_key_width n h =
    let e : max 10 (count_digits 20 n) ≡ 10 = omega (arith, count_digits-le 20 9 n h) in rw e
