-- ===== src/Raft/Examples.antt =====
-- A node that is asked to quit, at a concrete node.
use mathlib.Core.Option
use riteraft_ng.Prelude.{ℕ, ◌≡◌, refl, none, some, List, [], ◌∷◌, ◌++◌, true}
use riteraft_ng.Outcome.{ok}
use riteraft_ng.Exec
use riteraft_ng.Storage.Ordered.{Pairs}
use riteraft_ng.Storage.Heed.Core as Disk
use riteraft_ng.Node.Messages.{LocalRequestMsg}
use riteraft_ng.Node.Requests
use riteraft_ng.Node.Dispatch
use riteraft_ng.Node.Loop
use riteraft_ng.Node.Loop.{Event, from_local, nothing, Running, run, turn}
use riteraft_ng.Bootstrap.{start}
use riteraft_ng.Raft
use riteraft_ng.Raft.Ending.{run-quit}
use riteraft_ng.Samples.Surroundings.{Raw, node, node_env}

-- A proposal and a tick come before, and another proposal after.
abbrev before : List (Event × ℕ)
before = (from_local (LocalRequestMsg.propose (5 ∷ []) 7), 1) ∷ (nothing, 200000000) ∷ []

abbrev after : List (Event × ℕ)
after = (from_local (LocalRequestMsg.propose (6 ∷ []) 9), 1) ∷ []

abbrev asked : Running ℕ (Disk.State Pairs) Raw
asked = (run node_env before (start node_env (node 1))).1

abbrev ended : Running ℕ (Disk.State Pairs) Raw
ended = (turn node_env (from_local (LocalRequestMsg.quit 8)) 3 asked).1

run-quit_example :
    let events = before ++ (from_local (LocalRequestMsg.quit 8), 3) ∷ after in
    (run node_env events (start node_env (node 1)) ≡ (ok true, ended))
    × (Raft.run_node node_env events (Raft.new (node 1))
        ≡ (some (ok tt), record { content = none }))
    × (Option.map
          (λ r. Raft.run true (Raft.raft_node_ended r))
          (Raft.run_node node_env events (Raft.new (node 1))).0
        ≡ some (ok tt))
unfolding run turn Loop.update_timer Loop.on_ready Dispatch.handle_local_request_msg
    Requests.handle_propose_request Requests.keep_sender Exec.◌>>=◌
run-quit_example = run-quit node_env (node 1) before after 8 3 asked ended refl refl
