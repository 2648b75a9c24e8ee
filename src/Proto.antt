-- ===== src/Proto.antt =====
-- The messages of raftify/proto/eraftpb.proto that the crate builds and reads, and the two
-- encodings (prost's and bincode's), which are foreign code: a value that was encoded is read back.
use riteraft_ng.Prelude.{ℕ, ◌≡◌, Bool, false, Option, some, List, []}

abbrev pub Bytes : Type 0
Bytes = List ℕ

pub record Codec (A : Type 0) : Type 0 where
  pub encode : A → Bytes
  pub decode : Bytes → Option A
  pub decode-encode : (a : A) → decode (encode a) ≡ some a

pub data EntryType : Type 0 where
  entry_normal entry_conf_change entry_conf_change_v2 : EntryType

pub record Entry : Type 0 where
  pub entry_type : EntryType
  pub term : ℕ
  pub index : ℕ
  pub data_ : Bytes
  pub context : Bytes
  pub sync_log : Bool

pub record HardState : Type 0 where
  pub term : ℕ
  pub vote : ℕ
  pub commit : ℕ

pub record ConfState : Type 0 where
  pub voters : List ℕ
  pub learners : List ℕ
  pub voters_outgoing : List ℕ
  pub learners_next : List ℕ
  pub auto_leave : Bool

pub record SnapshotMetadata : Type 0 where
  pub conf_state : ConfState
  pub index : ℕ
  pub term : ℕ

pub record Snapshot : Type 0 where
  pub data_ : Bytes
  pub metadata : SnapshotMetadata

pub data ConfChangeType : Type 0 where
  add_node remove_node add_learner_node : ConfChangeType

pub data ConfChangeTransition : Type 0 where
  auto implicit explicit : ConfChangeTransition

pub record ConfChange : Type 0 where
  pub change_type : ConfChangeType
  pub node_id : ℕ
  pub context : Bytes
  pub id : ℕ

pub record ConfChangeSingle : Type 0 where
  pub change_type : ConfChangeType
  pub node_id : ℕ

pub record ConfChangeV2 : Type 0 where
  pub transition : ConfChangeTransition
  pub changes : List ConfChangeSingle
  pub context : Bytes

-- The kinds of message that the crate tells apart.
pub data MessageType : Type 0 where
  heartbeat heartbeat_response other_type : MessageType

-- The crate reads the kind and the two ends of a message, and passes the rest on.
pub record Message : Type 0 where
  pub msg_type : MessageType
  pub to : ℕ
  pub from : ℕ
  pub rest : Bytes

-- The `default()` values.
abbrev pub default_hard_state : HardState
default_hard_state = record { term = 0; vote = 0; commit = 0 }

abbrev pub default_conf_state : ConfState
default_conf_state = record {
  voters = [];
  learners = [];
  voters_outgoing = [];
  learners_next = [];
  auto_leave = false;
}

abbrev pub default_snapshot : Snapshot
default_snapshot = record {
  data_ = [];
  metadata = record { conf_state = default_conf_state; index = 0; term = 0 };
}

abbrev pub default_conf_change : ConfChangeV2
default_conf_change = record { transition = auto; changes = []; context = [] }
