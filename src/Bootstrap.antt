-- ===== src/Bootstrap.antt =====
-- raftify/src/raft_bootstrapper.rs (`Raft::bootstrap`) and raftify/src/raft_node/mod.rs
-- (`RaftNodeCore::bootstrap`): how a node starts, from its store and its configuration. The node's
-- own address has been resolved.
use riteraft_ng.Prelude.{
  ℕ, Bool, true, false, ◌||◌, not, none, some, List, [], ◌∷◌, ltb, ◌==◌, if◌then◌else◌, length,
  is_empty,
}
use riteraft_ng.Outcome.{Outcome, ok, panic}
use riteraft_ng.Exec.{Exec, lift, asks, gets, abort, when, ◌>>=◌, ◌>>◌}
use riteraft_ng.HashMap.{HashMap}
use riteraft_ng.Net.{SocketAddr, socket}
use riteraft_ng.Peers
use riteraft_ng.Peers.{InitialRole, leader, voter, learner, Peer, Peers}
use riteraft_ng.Config.{Config, validate, with_role, is_leader}
use riteraft_ng.Proto.{ConfState, Snapshot}
use riteraft_ng.Node.State.{Env, RaftNodeCore}
use riteraft_ng.Node.Loop.{Running}
pub mod Cluster
mod Examples

abbrev pub is_voter : InitialRole → Bool
is_voter voter = true
is_voter leader = true
is_voter learner = false

abbrev pub is_learner : InitialRole → Bool
is_learner r = not (is_voter r)

-- The voters and learners of the configuration, where the snapshot has none.
unfoldable pub with_members : HashMap Peer → ConfState → ConfState
with_members peers c =
    if is_empty c.voters
    then record c { voters = with_role is_voter peers; learners = with_role is_learner peers }
    else c

abbrev pub with_conf_state : HashMap Peer → Snapshot → Snapshot
with_conf_state peers x = record x {
  metadata = record x.metadata { conf_state = with_members peers x.metadata.conf_state };
}

-- `leaders.contains(&node_id)`
abbrev pub contains : ℕ → List ℕ → Bool
contains n [] = false
contains n (m ∷ ms) = m == n || contains n ms

module _ {F S R : Type 0} (env : Env F S R) where
  -- `initial_peers`, or the node alone.
  unfoldable pub bootstrap_peers : ℕ → Config → SocketAddr → Outcome Peers
  bootstrap_peers node_id config raft_addr = elim config.initial_peers [
    | some peers ↦ ok peers
    | none ↦ Peers.new env.net node_id (socket raft_addr) config.client_tls_config
  ]

  abbrev pub lead : Bool → S → R → R
  lead should_be_leader s r =
      if should_be_leader then env.raft.become_leader s (env.raft.become_candidate s r) else r

  abbrev pub fresh_core :
      R → S → F → Peers → Config → SocketAddr → ℕ → (ℕ → Bool) → RaftNodeCore F S R
  fresh_core r s f peers config raft_addr now receivers = record {
    raw_node = r;
    store = s;
    fsm = f;
    peers = peers;
    response_seq = 0;
    config = config;
    raft_addr = raft_addr;
    last_snapshot_created = now;
    should_exit = false;
    response_senders = [];
    now = now;
    receivers = receivers;
    replies = [];
    spawned = [];
  }

  -- RaftNodeCore::bootstrap, on the store; `now` and `receivers` are the surroundings.
  unfoldable pub bootstrap_core :
      ℕ → Bool → F → Config → SocketAddr → ℕ → (ℕ → Bool) → Exec S (RaftNodeCore F S R)
  bootstrap_core node_id should_be_leader f config raft_addr now receivers = do
    when (not (config.raft_config.id == node_id)) abort
    lift (validate env.raft.validate config)
    last_idx ← asks env.storage.last_index
    snapshot ← asks env.storage.snapshot
    peers ← lift (bootstrap_peers node_id config raft_addr)
    when (last_idx == 0 || config.bootstrap_from_snapshot)
        (env.storage.apply_snapshot (with_conf_state peers.inner snapshot))
    raw_node ← asks (env.raft.new config.raft_config)
    gets (λ s.
        fresh_core (lead should_be_leader s raw_node) s f peers config raft_addr now receivers)

  -- Raft::bootstrap
  unfoldable pub bootstrap :
      ℕ → F → Config → SocketAddr → ℕ → (ℕ → Bool) → Exec S (RaftNodeCore F S R)
  bootstrap node_id f config raft_addr now receivers s = elim config.initial_peers [
    | none ↦ bootstrap_core node_id true f config raft_addr now receivers s
    | some peers ↦
        let leaders = with_role is_leader peers.inner in
        if ltb (length leaders) 2
        then bootstrap_core node_id (contains node_id leaders) f config raft_addr now receivers s
        else (panic, s)
  ]

  -- The loop's variables where it starts.
  abbrev pub start : RaftNodeCore F S R → Running F S R
  start core = record { core = core; tick_timer = core.config.tick_interval }
