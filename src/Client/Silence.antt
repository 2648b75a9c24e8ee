-- ===== src/Client/Silence.antt =====
-- raftify/src/raft_node/mod.rs: what answers nobody.
use riteraft_ng.Prelude.{ℕ, ◌≡◌, refl, ◌∙◌, Option, none, List, [], ◌∷◌, ◌++◌, arith, Bool-cases}
use riteraft_ng.Outcome.{Outcome, ok, err, panic}
use riteraft_ng.Exec.{Exec, continue, ◌>>=◌, >>=-eq-ok}
use riteraft_ng.HashMap.{HashMap}
use riteraft_ng.Net.{SocketAddr, Addr, socket}
use riteraft_ng.Peers.{InitialRole, Peers}
use riteraft_ng.Proto.{Message}
use riteraft_ng.Node.Messages.{ResponseSender, ClusterJoinTicket, LocalResponseMsg}
use riteraft_ng.Node.State.{Env, RaftNodeCore, to_local, send_local, on_raft}
use riteraft_ng.Node.Commit
use riteraft_ng.Node.Requests
use riteraft_ng.Node.Dispatch.{step, after_step}

module _ {F S R : Type 0} where
  -- The answers are not touched.
  pub record Silent {A : Type 0} (m : Exec (RaftNodeCore F S R) A) : Type 0 where
    pub at : (s : RaftNodeCore F S R) → (m s).1.replies ≡ s.replies

  pub bind-Silent :
      {A B : Type 0} (m : Exec (RaftNodeCore F S R) A) (f : A → Exec (RaftNodeCore F S R) B)
      → Silent m
      → ((a : A) → Silent (f a))
      → Silent (m >>= f)
  unfolding ◌>>=◌
  bind-Silent {A = A} m f hm hf = record { at = λ s. go s (m s).0 (m s).1 (hm.at s) }
    where
      go :
          (s : RaftNodeCore F S R) (r : Outcome A) (t : RaftNodeCore F S R)
          → t.replies ≡ s.replies
          → (continue r f t).1.replies ≡ s.replies
      go s (ok a) t h = (hf a).at t ∙ h
      go s (err e) t h = h
      go s panic t h = h

  pub same-Silent : {A : Type 0} (f : RaftNodeCore F S R → Outcome A) → Silent (λ s. (f s, s))
  same-Silent f = record { at = λ s. refl }

  pub sent :
      (tx : ℕ) (m : LocalResponseMsg F S R) (s t : RaftNodeCore F S R)
      → send_local tx m s ≡ (ok tt, t)
      → t.replies ≡ s.replies ++ to_local tx m ∷ []
  sent tx m s t h = ground (arith, Bool-cases (s.receivers tx))

  pub ok-Silent :
      {A : Type 0} (m : Exec (RaftNodeCore F S R) A) (s t : RaftNodeCore F S R) {a : A}
      → Silent m
      → m s ≡ (ok a, t)
      → t.replies ≡ s.replies
  ok-Silent m s t q h = rw h at (q.at s)

  pub sent_after :
      {A : Type 0} (m : Exec (RaftNodeCore F S R) A) (tx : ℕ) (r : LocalResponseMsg F S R)
      (s t : RaftNodeCore F S R)
      → Silent m
      → (m >>= λ _. send_local tx r) s ≡ (ok tt, t)
      → t.replies ≡ s.replies ++ to_local tx r ∷ []
  sent_after m tx r s t q h =
      let (a, u, e, k) = >>=-eq-ok m _ s h in
      let same : u.replies ≡ s.replies = rw e at (q.at s) in rw (← same) (sent tx r u t k)

module _ {F S R : Type 0} (env : Env F S R) where
  pub make_snapshot-Silent : (index term : ℕ) → Silent (Commit.make_snapshot env index term)
  unfolding Commit.make_snapshot
  make_snapshot-Silent index term =
      bind-Silent _ _ (record { at = λ s. refl })
        λ _.
          bind-Silent _ _ (record { at = λ s. refl })
            λ d.
              bind-Silent _ _ (record { at = λ s. refl })
                λ a. bind-Silent _ _ (record { at = λ s. refl }) λ _. record { at = λ s. refl }

  pub set_peers-Silent : (x : Outcome Peers) → Silent (Commit.set_peers env x)
  set_peers-Silent (ok p) = record { at = λ s. refl }
  set_peers-Silent (err e) = record { at = λ s. refl }
  set_peers-Silent panic = record { at = λ s. refl }

  pub on_peers-Silent : (f : Peers → Outcome Peers) → Silent (Commit.on_peers env f)
  on_peers-Silent f = record { at = λ s. (set_peers-Silent (f s.peers)).at s }

  pub add_peer-Silent :
      (id : ℕ) (a : Addr) (role : Option InitialRole) → Silent (Requests.add_peer env id a role)
  unfolding Requests.add_peer
  add_peer-Silent id a role = bind-Silent _ _ (on_peers-Silent _) λ _. on_peers-Silent _

  pub add_peers-Silent : (m : HashMap SocketAddr) → Silent (Requests.add_peers env m)
  unfolding Requests.add_peers
  add_peers-Silent [] = record { at = λ s. refl }
  add_peers-Silent ((id, a) ∷ m) =
      bind-Silent _ _ (add_peer-Silent id (socket a) none) λ _. add_peers-Silent m

  pub handle_join-Silent : (ts : List ClusterJoinTicket) → Silent (Requests.handle_join env ts)
  unfolding Requests.handle_join
  handle_join-Silent [] = record { at = λ s. refl }
  handle_join-Silent (t ∷ ts) = bind-Silent _ _ (same-Silent _) λ _.
      bind-Silent _ _ (same-Silent _) λ _.
        bind-Silent _ _ (same-Silent _) λ _.
          bind-Silent _ _ (same-Silent _) λ _. bind-Silent _ _ (same-Silent _) λ _. same-Silent _

  pub after_step-Silent : (r : Outcome (Unit {0})) → Silent (after_step env r)
  after_step-Silent (ok u) = record { at = λ s. refl }
  after_step-Silent (err e) = record { at = λ s. refl }
  after_step-Silent panic = record { at = λ s. refl }

  pub step-Silent : (m : Message) → Silent (step env m)
  step-Silent m = record {
    at = λ s.
        let (r, t) = env.raft.step m s.store s.raw_node in
        (after_step-Silent r).at (record s { raw_node = t });
  }

  pub keep-Silent :
      (x : ResponseSender) (f : ℕ → S → Exec R (Unit {0}))
      → Silent (Requests.keep_sender env x >>= λ seq. on_raft (f seq))
  unfolding Requests.keep_sender
  keep-Silent x f = bind-Silent _ _ (record { at = λ s. refl }) λ seq. record { at = λ s. refl }
