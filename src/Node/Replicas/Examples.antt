-- ===== src/Node/Replicas/Examples.antt =====
-- Two nodes that are handed the same, one of which is asked for something in between.
use riteraft_ng.Prelude.{ℕ, ◌≡◌, refl, false, List, [], ◌∷◌}
use riteraft_ng.Outcome.{ok}
use riteraft_ng.Exec
use riteraft_ng.HashMap
use riteraft_ng.Storage.Ordered
use riteraft_ng.Storage.Ordered.{Pairs}
use riteraft_ng.Storage.Heed
use riteraft_ng.Storage.Heed.Core as Disk
use riteraft_ng.Node.Messages.{LocalRequestMsg}
use riteraft_ng.Node.Commit
use riteraft_ng.Node.Dispatch
use riteraft_ng.Node.Loop
use riteraft_ng.Node.Loop.{Event, Running, from_local, nothing, run}
use riteraft_ng.Node.Replication.{commands}
use riteraft_ng.Node.Replicas.{feed_all, feeds, replicas-agree}
use riteraft_ng.Bootstrap.{start}
use riteraft_ng.Samples.Busy.{busy_env}
use riteraft_ng.Samples.Surroundings.{Raw, node}

abbrev asked : List (Event × ℕ)
asked = (from_local (LocalRequestMsg.get_peers 7), 1) ∷ []

abbrev idle : List (Event × ℕ)
idle = (nothing, 5) ∷ []

abbrev leads : Running ℕ (Disk.State Pairs) Raw
leads = start busy_env (node 1)

abbrev follows : Running ℕ (Disk.State Pairs) Raw
follows = start busy_env (node 2)

abbrev led : Running ℕ (Disk.State Pairs) Raw
led = (run busy_env asked leads).1

abbrev followed : Running ℕ (Disk.State Pairs) Raw
followed = (run busy_env idle follows).1

replicas-agree_example :
    (feed_all busy_env.fsm (feeds busy_env asked leads) leads.core.fsm ≡ (ok tt, led.core.fsm))
    × (feed_all busy_env.fsm (feeds busy_env idle follows) follows.core.fsm
        ≡ (ok tt, followed.core.fsm))
    × (led.core.fsm ≡ followed.core.fsm)
unfolding feeds run Loop.turn Loop.update_timer Dispatch.handle_local_request_msg Loop.on_ready
    Exec.◌>>=◌ Loop.handle_ready Loop.handle_light_ready Heed.apply_snapshot Heed.committed
    Disk.hard_state Disk.read_meta Ordered.lookup_pair Disk.set_hard_state Disk.write_meta
    Disk.set_conf_state Disk.set_last_index Disk.set_snapshot Commit.handle_committed_entries
    Commit.handle_committed_normal_entry Commit.take_sender HashMap.get HashMap.remove commands
replicas-agree_example =
    replicas-agree busy_env busy_env asked idle leads led follows followed false false refl
      (λ f. refl) refl refl refl refl
