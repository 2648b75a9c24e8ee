-- ===== src/Memstore.antt =====
-- examples/memstore/src/state_machine.rs: the state machine of the example, a map from numbers to
-- texts. The encodings are foreign code.
pub mod Replay
pub mod Nodes
pub mod Web
use riteraft_ng.Prelude.{ℕ, String, Option, []}
use riteraft_ng.Outcome.{ok, other_error, or_fail, unwrap}
use riteraft_ng.Exec.{Exec, lift, asks, modify, pure, ◌>>=◌, ◌>>◌}
use riteraft_ng.HashMap
use riteraft_ng.HashMap.{HashMap}
use riteraft_ng.Proto.{Bytes, Codec}
use riteraft_ng.Node.State.{StateMachine}

pub data LogEntry : Type 0 where
  insert : (key : ℕ) (value : String) → LogEntry

abbrev pub HashStore : Type 0
HashStore = HashMap String

abbrev pub new : HashStore
new = []

unfoldable pub get : ℕ → HashStore → Option String
get id db = HashMap.get id db

abbrev pub apply_entry : LogEntry → HashStore → HashStore
apply_entry (insert key value) db = HashMap.insert key value db

module _ (log_entry : Codec LogEntry) (map : Codec HashStore) where
  unfoldable pub apply : Bytes → Exec HashStore Bytes
  apply bytes = do
    entry ← lift (or_fail (log_entry.decode bytes) other_error)
    modify (apply_entry entry)
    pure bytes

  unfoldable pub snapshot : Exec HashStore Bytes
  snapshot = asks (λ db. ok (map.encode db))

  -- Bytes that are no map panic.
  unfoldable pub restore : Bytes → Exec HashStore Unit
  restore bytes = do db ← lift (unwrap (map.decode bytes)); modify (λ _. db)

  abbrev pub hash_store : StateMachine HashStore
  hash_store = record { apply = apply; snapshot = snapshot; restore = restore }
