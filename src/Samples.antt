-- ===== src/Samples.antt =====
-- Concrete encodings, a concrete resolver and concrete surroundings, for the examples: numbers
-- stand for themselves in a list of bytes, and a list goes after its length.
use riteraft_ng.Prelude.{
  ℕ, zero, suc, ◌-◌, ◌≡◌, refl, Bool, true, false, Option, none, some, List, [], ◌∷◌,
}
use riteraft_ng.Net.{SocketAddr}
use riteraft_ng.Proto.{
  Bytes, Codec, ConfChange, ConfChangeSingle, ConfChangeTransition, ConfChangeType, ConfChangeV2,
  ConfState, Entry, EntryType, HardState, Snapshot, add_node, remove_node, add_learner_node, auto,
  implicit, explicit, entry_normal, entry_conf_change, entry_conf_change_v2,
}
pub mod Strings
pub mod Texts
pub mod Busy
pub mod Tables
pub mod Surroundings
pub mod Servers
pub use Strings.*

-- A reader takes a value off the front.
abbrev Reader : Type 0 → Type 0
Reader A = Bytes → Option (A × Bytes)

abbrev then_read : {A B : Type 0} → Option (A × Bytes) → (A → Bytes → Option B) → Option B
then_read none f = none
then_read (some (a, rest)) f = f a rest

abbrev number : Reader ℕ
number [] = none
number (n ∷ rest) = some (n, rest)

abbrev put_list : List ℕ → Bytes → Bytes
put_list [] rest = 0 ∷ rest
put_list (n ∷ ns) rest = 1 ∷ n ∷ put_list ns rest

unfoldable pub list : Reader (List ℕ)
list [] = none
list (zero ∷ rest) = some ([], rest)
list (suc t ∷ []) = none
list (suc t ∷ n ∷ rest) = then_read (list rest) (λ ns rest. some (n ∷ ns, rest))

pub list-put_list : (ns : List ℕ) (rest : Bytes) → list (put_list ns rest) ≡ some (ns, rest)
unfolding list
list-put_list [] rest = refl
list-put_list (n ∷ ns) rest = rw (list-put_list ns rest)

abbrev bit : Bool → ℕ
bit true = 1
bit false = 0

abbrev bool : ℕ → Bool
bool zero = false
bool (suc n) = true

pub bool-bit : (b : Bool) → bool (bit b) ≡ b
bool-bit true = refl
bool-bit false = refl

abbrev pub number_codec : Codec ℕ
number_codec = record {
  encode = λ n. n ∷ [];
  decode = λ bytes. then_read (number bytes) (λ n rest. some n);
  decode-encode = λ n. refl;
}

abbrev pub hard_state_codec : Codec HardState
hard_state_codec = record {
  encode = λ h. h.term ∷ h.vote ∷ h.commit ∷ [];
  decode = λ bytes. then_read (number bytes) λ t rest.
      then_read (number rest) λ v rest.
        then_read (number rest) λ c rest. some (record { term = t; vote = v; commit = c });
  decode-encode = λ h. refl;
}

abbrev put_conf_state : ConfState → Bytes → Bytes
put_conf_state c rest = put_list c.voters (
    put_list c.learners
      (put_list c.voters_outgoing (put_list c.learners_next (bit c.auto_leave ∷ rest))))

unfoldable pub read_conf_state : Reader ConfState
read_conf_state bytes = then_read (list bytes) λ v rest. then_read (list rest) λ l rest.
    then_read (list rest) λ o rest. then_read (list rest) λ n rest.
      then_read (number rest) λ b rest. some (
        record {
          voters = v;
          learners = l;
          voters_outgoing = o;
          learners_next = n;
          auto_leave = bool b;
        },
        rest,
      )

pub read_conf_state-put :
    (c : ConfState) (rest : Bytes) → read_conf_state (put_conf_state c rest) ≡ some (c, rest)
unfolding read_conf_state
read_conf_state-put c rest = rw (
  list-put_list c.voters _,
  list-put_list c.learners _,
  list-put_list c.voters_outgoing _,
  list-put_list c.learners_next _,
  bool-bit c.auto_leave,
)

abbrev pub conf_state_codec : Codec ConfState
conf_state_codec = record {
  encode = λ c. put_conf_state c [];
  decode = λ bytes. then_read (read_conf_state bytes) (λ c rest. some c);
  decode-encode = λ c. rw (read_conf_state-put c []);
}

abbrev pub snapshot_codec : Codec Snapshot
snapshot_codec = record {
  encode = λ x. put_conf_state x.metadata.conf_state (x.metadata.index ∷ x.metadata.term ∷ x.data_);
  decode = λ bytes. then_read (read_conf_state bytes) λ c rest. then_read (number rest) λ i rest.
      then_read (number rest) λ t rest.
        some (record { data_ = rest; metadata = record { conf_state = c; index = i; term = t } });
  decode-encode = λ x.
      rw (read_conf_state-put x.metadata.conf_state (x.metadata.index ∷ x.metadata.term ∷ x.data_));
}

abbrev type_number : EntryType → ℕ
type_number entry_normal = 0
type_number entry_conf_change = 1
type_number entry_conf_change_v2 = 2

abbrev entry_type : ℕ → EntryType
entry_type zero = entry_normal
entry_type (suc zero) = entry_conf_change
entry_type (suc (suc n)) = entry_conf_change_v2

pub entry_type-type_number : (t : EntryType) → entry_type (type_number t) ≡ t
entry_type-type_number entry_normal = refl
entry_type-type_number entry_conf_change = refl
entry_type-type_number entry_conf_change_v2 = refl

abbrev pub entry_codec : Codec Entry
entry_codec = record {
  encode = λ e.
      type_number e.entry_type ∷ e.term ∷ e.index ∷ bit e.sync_log ∷ put_list e.data_ e.context;
  decode = λ bytes. then_read (number bytes) λ k rest. then_read (number rest) λ t rest.
      then_read (number rest) λ i rest. then_read (number rest) λ b rest.
        then_read (list rest) λ d rest. some (record {
          entry_type = entry_type k;
          term = t;
          index = i;
          data_ = d;
          context = rest;
          sync_log = bool b;
        });
  decode-encode = λ e.
      rw
        (list-put_list e.data_ e.context, entry_type-type_number e.entry_type, bool-bit e.sync_log);
}

abbrev change_number : ConfChangeType → ℕ
change_number add_node = 0
change_number remove_node = 1
change_number add_learner_node = 2

abbrev change_type : ℕ → ConfChangeType
change_type zero = add_node
change_type (suc zero) = remove_node
change_type (suc (suc n)) = add_learner_node

pub change_type-change_number : (t : ConfChangeType) → change_type (change_number t) ≡ t
change_type-change_number add_node = refl
change_type-change_number remove_node = refl
change_type-change_number add_learner_node = refl

abbrev pub conf_change_codec : Codec ConfChange
conf_change_codec = record {
  encode = λ c. change_number c.change_type ∷ c.node_id ∷ c.id ∷ c.context;
  decode = λ bytes. then_read (number bytes) λ t rest. then_read (number rest) λ n rest.
      then_read (number rest) λ i rest.
        some (record { change_type = change_type t; node_id = n; context = rest; id = i });
  decode-encode = λ c. rw (change_type-change_number c.change_type);
}

-- Pairs of numbers up to a mark.
abbrev put_changes : List ConfChangeSingle → Bytes → Bytes
put_changes [] rest = 0 ∷ rest
put_changes (c ∷ cs) rest = 1 ∷ change_number c.change_type ∷ c.node_id ∷ put_changes cs rest

unfoldable pub changes : Reader (List ConfChangeSingle)
changes [] = none
changes (zero ∷ rest) = some ([], rest)
changes (suc t ∷ []) = none
changes (suc t ∷ k ∷ []) = none
changes (suc t ∷ k ∷ n ∷ rest) =
    then_read (changes rest)
      λ cs rest. some (record { change_type = change_type k; node_id = n } ∷ cs, rest)

pub changes-put_changes :
    (cs : List ConfChangeSingle) (rest : Bytes) → changes (put_changes cs rest) ≡ some (cs, rest)
unfolding changes
changes-put_changes [] rest = refl
changes-put_changes (c ∷ cs) rest =
    rw (changes-put_changes cs rest, change_type-change_number c.change_type)

abbrev transition_number : ConfChangeTransition → ℕ
transition_number auto = 0
transition_number implicit = 1
transition_number explicit = 2

abbrev transition : ℕ → ConfChangeTransition
transition zero = auto
transition (suc zero) = implicit
transition (suc (suc n)) = explicit

pub transition-transition_number : (t : ConfChangeTransition) → transition (transition_number t) ≡ t
transition-transition_number auto = refl
transition-transition_number implicit = refl
transition-transition_number explicit = refl

abbrev pub conf_change_v2_codec : Codec ConfChangeV2
conf_change_v2_codec = record {
  encode = λ v. transition_number v.transition ∷ put_changes v.changes v.context;
  decode = λ bytes. then_read (number bytes) λ t rest.
      then_read (changes rest)
        λ cs rest. some (record { transition = transition t; changes = cs; context = rest });
  decode-encode =
      λ v. rw (changes-put_changes v.changes v.context, transition-transition_number v.transition);
}

abbrev put_addrs : List SocketAddr → Bytes
put_addrs [] = []
put_addrs (a ∷ rest) = a.ip ∷ a.port ∷ put_addrs rest

unfoldable pub addrs : Bytes → Option (List SocketAddr)
addrs [] = some []
addrs (n ∷ []) = none
addrs (n ∷ m ∷ rest) = elim (addrs rest) [
  | none ↦ none
  | some tail ↦ some (record { ip = n; port = m } ∷ tail)
]

pub addrs-put_addrs : (xs : List SocketAddr) → addrs (put_addrs xs) ≡ some xs
unfolding addrs
addrs-put_addrs [] = refl
addrs-put_addrs (a ∷ rest) = rw (addrs-put_addrs rest)

abbrev pub addrs_codec : Codec (List SocketAddr)
addrs_codec = record { encode = put_addrs; decode = addrs; decode-encode = addrs-put_addrs }
