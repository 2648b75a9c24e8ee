-- ===== src/Outcome.antt =====
-- raftify/src/error.rs: the errors, and the three ways in which a call ends. `panic` is an
-- `unwrap`, an `expect`, an index out of range, or `unreachable!`.
use riteraft_ng.Prelude.{ℕ, String, ◌≡◌, refl, Option, none, some, Bool, true, false}

-- The variants of raft-rs's storage error that the crate builds; `other` carries a foreign error.
pub data StorageError : Type 0 where
  compacted unavailable snapshot_temporarily_unavailable snapshot_out_of_date other : StorageError

-- raft-rs's error; `raft_other` is a variant that the crate never builds itself.
pub data RaftError : Type 0 where
  store : StorageError → RaftError
  raft_other : ℕ → RaftError

pub data Error : Type 0 where
  raft_error : RaftError → Error
  raft_storage_error : StorageError → Error
  join_error : Error
  rejected : String → Error
  config_invalid : String → Error
  timeout grpc remote_call io database other_error unknown ctrl_c recv_error : Error
  encoding_error : String → Error
  decoding_error : String → Error
  config_file_parsing_error : Error

pub data Outcome {ℓ} (A : Type ℓ) : Type ℓ where
  ok : A → Outcome A
  err : Error → Outcome A
  panic : Outcome A

infixl 10 ◌>>=◌ ◌>>◌
abbrev pub ◌>>=◌ {ℓ κ} : {A : Type ℓ} {B : Type κ} → Outcome A → (A → Outcome B) → Outcome B
ok a >>= f = f a
err e >>= f = err e
panic >>= f = panic

abbrev pub ◌>>◌ {ℓ κ} : {A : Type ℓ} {B : Type κ} → Outcome A → Outcome B → Outcome B
m >> k = m >>= λ _. k

-- `Option::unwrap`, `expect`.
abbrev pub unwrap {ℓ} : {A : Type ℓ} → Option A → Outcome A
unwrap none = panic
unwrap (some a) = ok a

-- `Option::ok_or`.
abbrev pub or_fail {ℓ} : {A : Type ℓ} → Option A → Error → Outcome A
or_fail none e = err e
or_fail (some a) e = ok a

-- `map_err(|_| e)`.
abbrev pub map_err {ℓ} : {A : Type ℓ} → Error → Outcome A → Outcome A
map_err e (ok a) = ok a
map_err e (err f) = err e
map_err e panic = panic

-- `Result::unwrap`, `expect`.
abbrev pub unwrap_ok {ℓ} : {A : Type ℓ} → Outcome A → Outcome A
unwrap_ok (ok a) = ok a
unwrap_ok (err e) = panic
unwrap_ok panic = panic

abbrev pub is_ok {ℓ} : {A : Type ℓ} → Outcome A → Bool
is_ok (ok a) = true
is_ok _ = false

-- A chain that ends well went well at each step.
pub >>=-eq-ok {ℓ κ} :
    {A : Type ℓ} {B : Type κ} (first : Outcome A) (next : A → Outcome B) {y : B}
    → (first >>= next) ≡ ok y
    → (x : A) × (first ≡ ok x) × (next x ≡ ok y)
>>=-eq-ok (ok x) next e = (x, refl, e)
>>=-eq-ok (err c) next e = cc
>>=-eq-ok panic next e = cc
