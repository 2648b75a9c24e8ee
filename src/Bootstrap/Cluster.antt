-- ===== src/Bootstrap/Cluster.antt =====
-- raftify/src/raft_bootstrapper.rs and raftify/src/raft_node/mod.rs: the cluster that a node starts
-- with.
use riteraft_ng.Prelude.{
  ℕ, ◌<◌, ◌≡◌, inl, inr, Bool, true, false, Option, none, some, List, [], arith, ltb, Bool-cases,
  Option-cases, length,
}
use riteraft_ng.Outcome.{ok, err, panic, config_invalid}
use riteraft_ng.Exec.{>>=-eq-ok}
use riteraft_ng.HashMap
use riteraft_ng.HashMap.{HashMap}
use riteraft_ng.Net.{SocketAddr}
use riteraft_ng.Peers.{InitialRole, Peer, Peers, u64}
use riteraft_ng.Config.{Config, validate, with_role, is_leader}
use riteraft_ng.Node.State.{Env, RaftNodeCore}
use riteraft_ng.Node.Loop.{Event, run}
use riteraft_ng.Node.Invariants.{IsPending, run-IsPending}
use riteraft_ng.Bootstrap.{bootstrap, bootstrap_core, start, contains}

abbrev pub role_passes : (InitialRole → Bool) → Option Peer → Bool
role_passes p none = false
role_passes p (some v) = p v.initial_role

module _ {F S R : Type 0} (env : Env F S R) where
  -- With more than one leader among the initial peers, a node does not start: it panics, where the
  -- validation of the same configuration reports the error.
  pub bootstrap-two_leaders :
      (id : ℕ) (f : F) (config : Config) (a : SocketAddr) (now : ℕ) (rec : ℕ → Bool) (s : S)
      (peers : Peers)
      → config.initial_peers ≡ some peers
      → 1 < length (with_role is_leader peers.inner)
      → (bootstrap env id f config a now rec s ≡ (panic, s))
        × (validate env.raft.validate config
            ≡ err (config_invalid "initial_peers should contain at most 1 leaders"))
  unfolding bootstrap validate
  bootstrap-two_leaders id f config a now rec s peers e h =
      (rw e (ground arith), rw e (ground arith))

  bootstrap_core-fresh :
      (id : ℕ) (lead_now : Bool) (f : F) (config : Config) (a : SocketAddr) (now : ℕ)
      (rec : ℕ → Bool) (s t : S) (core : RaftNodeCore F S R)
      → bootstrap_core env id lead_now f config a now rec s ≡ (ok core, t)
      → (core.response_senders ≡ []) × (core.response_seq ≡ 0)
  unfolding bootstrap_core
  bootstrap_core-fresh id lead_now f config a now rec s t core h =
      let (_, _, _, h1) = >>=-eq-ok _ _ _ h in
      let (_, _, _, h2) = >>=-eq-ok _ _ _ h1 in
      let (_, _, _, h3) = >>=-eq-ok _ _ _ h2 in
      let (_, _, _, h4) = >>=-eq-ok _ _ _ h3 in
      let (_, _, _, h5) = >>=-eq-ok _ _ _ h4 in
      let (_, _, _, h6) = >>=-eq-ok _ _ _ h5 in
      let (_, _, _, h7) = >>=-eq-ok _ _ _ h6 in ground (arith, h7)

  bootstrap-fresh :
      (id : ℕ) (f : F) (config : Config) (a : SocketAddr) (now : ℕ) (rec : ℕ → Bool) (s t : S)
      (core : RaftNodeCore F S R)
      → bootstrap env id f config a now rec s ≡ (ok core, t)
      → (core.response_senders ≡ []) × (core.response_seq ≡ 0)
  unfolding bootstrap
  bootstrap-fresh id f config a now rec s t core h = elim (Option-cases config.initial_peers) [
    | inl e ↦ bootstrap_core-fresh id true f config a now rec s t core (rw (e, bootstrap) at h)
    | inr (peers, e) ↦
        let leaders = with_role is_leader peers.inner in
        elim (Bool-cases (ltb (length leaders) 2)) [
          | inl k ↦
              bootstrap_core-fresh id (contains id leaders) f config a now rec s t core
                (rw (e, k, bootstrap) at h)
          | inr k ↦ cc (rw (e, k, bootstrap) at h)
        ]
  ]

  -- A node that was started has, after any run of fewer than 2^64 events, distinct numbers for the
  -- requests that wait, all below its counter.
  pub bootstrap-run :
      (id : ℕ) (f : F) (config : Config) (a : SocketAddr) (now : ℕ) (rec : ℕ → Bool) (s t : S)
      (core : RaftNodeCore F S R) (es : List (Event × ℕ))
      → bootstrap env id f config a now rec s ≡ (ok core, t)
      → length es < u64
      → IsPending (length es) (run env es (start env core)).1.core
  unfolding HashMap.get
  bootstrap-run id f config a now rec s t core es h b =
      let (e, z) = bootstrap-fresh id f config a now rec s t core h in
      let pending = run-IsPending env es (start env core) 0 (ground arith) (record {
        unique = rw e tt;
        below = λ k x g. cc (rw (e, HashMap.get) at g);
        bound = ground (arith, z);
      }) in
      record {
        unique = pending.unique;
        below = pending.below;
        bound = ground (arith, pending.bound);
      }
