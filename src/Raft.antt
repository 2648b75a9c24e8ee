-- ===== src/Raft.antt =====
-- raftify/src/raft_bootstrapper.rs (`Raft::run`), raftify/src/raft_node/mod.rs (`RaftNode::run`) and
-- raftify/src/utils/oneshot_mutex.rs: the two tasks of a node, and how they end.
pub mod Ending
mod Examples
use riteraft_ng.Prelude.{ℕ, Bool, true, false, Option, none, some, List, if◌then◌else◌}
use riteraft_ng.Outcome.{Outcome, ok, err, panic, unknown, other_error}
use riteraft_ng.Exec.{Exec, pure, ◌>>=◌}
use riteraft_ng.Net.{SocketAddr}
use riteraft_ng.Config.{Config}
use riteraft_ng.Node.State.{Env, RaftNodeCore}
use riteraft_ng.Node.Loop as Loop
use riteraft_ng.Node.Loop.{Event}
use riteraft_ng.Bootstrap.{bootstrap_core, start}

-- A lock whose content is taken by the first who locks it.
pub record OneShotMutex {ℓ} (T : Type ℓ) : Type ℓ where
  pub content : Option T

abbrev pub new {ℓ} : {T : Type ℓ} → T → OneShotMutex T
new x = record { content = some x }

abbrev pub lock {ℓ} : {T : Type ℓ} → OneShotMutex T → Option T × OneShotMutex T
lock m = (m.content, record { content = none })

-- The first branch of `select!` that is taken: the signal, or the end of a task. A task that
-- panicked ends in a `JoinError`.
pub data Ended : Type 0 where
  ctrl_c : Ended
  raft_node_ended raft_server_ended : Outcome (Unit {0}) → Ended

-- What becomes of a task's result.
abbrev pub joined : Outcome (Unit {0}) → Outcome (Unit {0})
joined (ok u) = ok tt
joined (err e) = err other_error
joined panic = err unknown

-- Raft::run. `listens` says that the server still has the receiver of the quit signal.
unfoldable pub run : Bool → Ended → Outcome (Unit {0})
run listens ctrl_c = ok tt
run listens (raft_node_ended result) = if listens then joined result else panic
run listens (raft_server_ended result) = joined result

-- The result of the node's loop, which is `none` while it waits for the next event.
abbrev pub finished : Outcome Bool → Option (Outcome (Unit {0}))
finished (ok true) = some (ok tt)
finished (ok false) = none
finished (err e) = some (err e)
finished panic = some panic

module _ {F S R : Type 0} (env : Env F S R) where
  -- RaftNode::bootstrap
  unfoldable pub bootstrap :
      ℕ
      → Bool
      → F
      → Config
      → SocketAddr
      → ℕ
      → (ℕ → Bool)
      → Exec S (OneShotMutex (RaftNodeCore F S R))
  bootstrap node_id should_be_leader f config raft_addr now receivers = do
    core ← bootstrap_core env node_id should_be_leader f config raft_addr now receivers
    pure (new core)

  abbrev run_core : List (Event × ℕ) → Option (RaftNodeCore F S R) → Option (Outcome (Unit {0}))
  run_core es none = some panic
  run_core es (some core) = finished (Loop.run env es (start env core)).0

  -- RaftNode::run on the events that come; a second run panics.
  unfoldable pub run_node :
      List (Event × ℕ)
      → OneShotMutex (RaftNodeCore F S R)
      → Option (Outcome (Unit {0})) × OneShotMutex (RaftNodeCore F S R)
  run_node es inner = let (core, rest) = lock inner in (run_core es core, rest)
