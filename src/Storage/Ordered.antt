-- ===== src/Storage/Ordered.antt =====
-- What the stores ask of their database (LMDB through heed, or RocksDB), which is foreign code: a
-- map from byte strings to byte strings, kept in the order of the keys. A write may fail.
pub mod Laws
use riteraft_ng.Prelude.{
  ◌-◌, ◌≡◌, refl, Bool, ◌&&◌, not, Option, none, some, List, [], ◌∷◌, if◌then◌else◌, filter,
}
use riteraft_ng.Proto.{Bytes}
use riteraft_ng.Storage.Keys.{lex_lt}

abbrev pub Pairs : Type 0
Pairs = List (Bytes × Bytes)

unfoldable pub insert_pair : Bytes → Bytes → Pairs → Pairs
insert_pair k v [] = (k, v) ∷ []
insert_pair k v ((j, w) ∷ m) =
    let rest = insert_pair k v m in
    if lex_lt k j then (k, v) ∷ (j, w) ∷ m else if lex_lt j k then (j, w) ∷ rest else (k, v) ∷ m

-- Two keys of which neither is the smaller are one key.
unfoldable pub lookup_pair : Bytes → Pairs → Option Bytes
lookup_pair k [] = none
lookup_pair k ((j, w) ∷ m) =
    let rest = lookup_pair k m in if lex_lt k j then rest else if lex_lt j k then rest else some w

abbrev pub first_pair : Pairs → Option (Bytes × Bytes)
first_pair [] = none
first_pair (e ∷ m) = some e

-- `low..high` and `..high`, as heed and RocksDB read them: the upper end is left out.
abbrev pub between : Bytes → Bytes → Bytes × Bytes → Bool
between low high e = not (lex_lt e.0 low) && lex_lt e.0 high

abbrev pub under : Bytes → Bytes × Bytes → Bool
under high e = lex_lt e.0 high

-- `pairs` lists the database in the order of its keys; the laws describe each operation by it.
pub record Ordered (Db : Type 0) : Type 0 where
  pub pairs : Db → Pairs
  pub get : Bytes → Db → Option Bytes
  pub put : Bytes → Bytes → Db → Option Db
  pub first : Db → Option (Bytes × Bytes)
  pub range : Bytes → Bytes → Db → Pairs
  pub delete_range : Bytes → Bytes → Db → Option Db
  pub range_to : Bytes → Db → Pairs
  pub delete_range_to : Bytes → Db → Option Db
  pub clear : Db → Option Db
  pub get_lem : (k : Bytes) (d : Db) → get k d ≡ lookup_pair k (pairs d)
  pub put_lem : (k v : Bytes) (d e : Db) → put k v d ≡ some e → pairs e ≡ insert_pair k v (pairs d)
  pub first_lem : (d : Db) → first d ≡ first_pair (pairs d)
  pub range_lem : (l h : Bytes) (d : Db) → range l h d ≡ filter (between l h) (pairs d)
  pub delete_range_lem :
      (l h : Bytes) (d e : Db)
      → delete_range l h d ≡ some e
      → pairs e ≡ filter (λ x. not (between l h x)) (pairs d)
  pub range_to_lem : (h : Bytes) (d : Db) → range_to h d ≡ filter (under h) (pairs d)
  pub delete_range_to_lem :
      (h : Bytes) (d e : Db)
      → delete_range_to h d ≡ some e
      → pairs e ≡ filter (λ x. not (under h x)) (pairs d)
  pub clear_lem : (d e : Db) → clear d ≡ some e → pairs e ≡ []

-- A database whose writes all succeed.
pub record IsReliable {Db : Type 0} (o : Ordered Db) : Type 0 where
  pub put_ok : (k v : Bytes) (d : Db) → (e : Db) × (o.put k v d ≡ some e)
  pub delete_range_ok : (l h : Bytes) (d : Db) → (e : Db) × (o.delete_range l h d ≡ some e)
  pub delete_range_to_ok : (h : Bytes) (d : Db) → (e : Db) × (o.delete_range_to h d ≡ some e)

pub written : {d e : Pairs} → some d ≡ some e → e ≡ d
written h = cc

-- The list itself is such a database.
abbrev pub list_db : Ordered Pairs
list_db = record {
  pairs = λ d. d;
  get = lookup_pair;
  put = λ k v d. some (insert_pair k v d);
  first = first_pair;
  range = λ l h d. filter (between l h) d;
  delete_range = λ l h d. some (filter (λ x. not (between l h x)) d);
  range_to = λ h d. filter (under h) d;
  delete_range_to = λ h d. some (filter (λ x. not (under h x)) d);
  clear = λ d. some [];
  get_lem = λ k d. refl;
  put_lem = λ k v d e h. written h;
  first_lem = λ d. refl;
  range_lem = λ l h d. refl;
  delete_range_lem = λ l h d e p. written p;
  range_to_lem = λ h d. refl;
  delete_range_to_lem = λ h d e p. written p;
  clear_lem = λ d e p. written p;
}

pub list_db-IsReliable : IsReliable list_db
list_db-IsReliable = record {
  put_ok = λ k v d. (insert_pair k v d, refl);
  delete_range_ok = λ l h d. (filter (λ x. not (between l h x)) d, refl);
  delete_range_to_ok = λ h d. (filter (λ x. not (under h x)) d, refl);
}
