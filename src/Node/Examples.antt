-- ===== src/Node/Examples.antt =====
-- The node's theorems, each at a concrete node.
use riteraft_ng.Prelude.{ℕ, ◌≡◌, refl, some, List, [], ◌∷◌, arith}
use riteraft_ng.Outcome.{Outcome, ok}
use riteraft_ng.HashMap
use riteraft_ng.Exec
use riteraft_ng.Proto.{default_hard_state, default_snapshot}
use riteraft_ng.Storage.Ordered
use riteraft_ng.Storage.Ordered.{Pairs}
use riteraft_ng.Storage.Heed
use riteraft_ng.Storage.Heed.Core as Disk
use riteraft_ng.Node.Messages.{local, success, LocalRequestMsg, ServerRequestMsg}
use riteraft_ng.Node.State.{RaftNodeCore, Ready}
use riteraft_ng.Node.Commit
use riteraft_ng.Node.Requests
use riteraft_ng.Node.Loop
use riteraft_ng.Node.Loop.{Event, from_local, from_server, nothing, Running, run}
use riteraft_ng.Node.Answers.{propose-commit, propose_reply}
use riteraft_ng.Node.Invariants.{IsPending, run-IsPending}
use riteraft_ng.Node.Order.{handle_ready-order}
use riteraft_ng.Samples.Surroundings.{Raw, node_env, node, empty_heed, entry}

-- A proposal, a tick without a message, and a change of the members.
abbrev events : List (Event × ℕ)
events =
    (from_local (LocalRequestMsg.propose (5 ∷ []) 7), 1)
    ∷ (nothing, 200000000)
    ∷ (from_server (ServerRequestMsg.propose (6 ∷ []) 8), 1)
    ∷ []

abbrev running : Running ℕ (Disk.State Pairs) Raw
running = record { core = node 1; tick_timer = 100000000 }

run-IsPending_example : IsPending 3 (run node_env events running).1.core
unfolding HashMap.get
run-IsPending_example =
    run-IsPending node_env events running 0 (omega arith)
      (record { unique = tt; below = λ k x e. cc e; bound = omega arith })

-- One local request waits under the number 0.
abbrev waiting : RaftNodeCore ℕ (Disk.State Pairs) Raw
waiting = record (node 1) { response_seq = 1; response_senders = (0, local 7) ∷ [] }

propose-commit_example :
    ((Requests.handle_propose_request node_env (5 ∷ []) (local 7) (node 1)).0 ≡ ok tt)
    × (Commit.handle_committed_normal_entry node_env (entry 1 5) waiting ≡ (
      ok tt,
      record waiting {
        fsm = 1;
        response_senders = [];
        replies = propose_reply (local 7) success ∷ [];
      },
    ))
unfolding HashMap.get HashMap.remove HashMap.insert Requests.handle_propose_request
    Requests.keep_sender Exec.◌>>=◌
propose-commit_example =
    propose-commit node_env (5 ∷ []) (local 7) (node 1) waiting
      (record { id = 1; leader_id = 1; applied = 0 }) (entry 1 5) [] 1 refl refl refl refl refl refl
      refl

abbrev ready : Ready
ready = record {
  messages = [];
  snapshot = default_snapshot;
  committed_entries = [];
  entries = entry 1 5 ∷ [];
  hs = some default_hard_state;
  persisted_messages = [];
}

abbrev appended : Outcome (Unit {0}) × Disk.State Pairs
appended = node_env.storage.append (entry 1 5 ∷ []) empty_heed

abbrev stored : Outcome (Unit {0}) × Disk.State Pairs
stored = node_env.storage.set_hard_state default_hard_state appended.1

handle_ready-order_example :
    Loop.handle_ready node_env ready (node 1)
    ≡ (ok tt, record (node 1) { store = stored.1; spawned = [] })
unfolding Heed.append Heed.committed Disk.append Disk.put_all Disk.put_entry Disk.set_last_index
    Disk.write_meta Disk.read_meta Disk.first_index Disk.last_index Disk.snapshot
    Heed.set_hard_state Disk.set_hard_state Exec.◌>>=◌ Ordered.lookup_pair
handle_ready-order_example =
    handle_ready-order node_env ready (entry 1 5) [] default_hard_state (node 1) (ok tt) (ok tt)
      appended.1 stored.1 refl refl refl refl refl refl
