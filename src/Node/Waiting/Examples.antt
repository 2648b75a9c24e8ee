-- ===== src/Node/Waiting/Examples.antt =====
-- A request that waits, at a concrete node.
use riteraft_ng.Prelude.{ℕ, refl, List, [], ◌∷◌, false, arith, inl, inr, Bool-cases, ◌==◌}
use riteraft_ng.Exec
use riteraft_ng.HashMap
use riteraft_ng.Storage.Ordered.{Pairs}
use riteraft_ng.Storage.Heed.Core as Disk
use riteraft_ng.Node.Messages.{local, LocalRequestMsg}
use riteraft_ng.Node.Requests
use riteraft_ng.Node.Dispatch
use riteraft_ng.Node.Loop
use riteraft_ng.Node.Loop.{Event, from_local, nothing, Running, run, turn}
use riteraft_ng.Node.Waiting.{Remembers, run-Remembers}
use riteraft_ng.Samples.Surroundings.{Raw, node, node_env}

-- The request under the number 0 waits, and another proposal and a tick come.
abbrev waiting : Running ℕ (Disk.State Pairs) Raw
waiting = record {
  core = record (node 1) { response_seq = 1; response_senders = (0, local 7) ∷ [] };
  tick_timer = 100000000;
}

abbrev events : List (Event × ℕ)
events = (from_local (LocalRequestMsg.propose (5 ∷ []) 8), 1) ∷ (nothing, 200000000) ∷ []

abbrev later : Running ℕ (Disk.State Pairs) Raw
later = (run node_env events waiting).1

run-Remembers_example : Remembers waiting.core later.core
unfolding HashMap.get run turn Loop.update_timer Loop.on_ready Dispatch.handle_local_request_msg
    Requests.handle_propose_request Requests.keep_sender Exec.◌>>=◌
run-Remembers_example =
    run-Remembers node_env events waiting later 1 false (omega arith)
      (record {
        unique = (tt, tt);
        below = λ k x e. elim (Bool-cases (0 == k)) [
          | inl same ↦ ground (arith, same)
          | inr other ↦ ground (arith, other, e)
        ];
        bound = omega arith;
      })
      refl
