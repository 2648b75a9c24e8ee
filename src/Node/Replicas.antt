-- ===== src/Node/Replicas.antt =====
-- raftify/src/raft_node/mod.rs: over a whole run, the state machine is given what raft-rs hands out, in
-- order, and nothing else; so nodes that are handed the same agree.
mod Examples
use riteraft_ng.Prelude.{
  ℕ, ◌+◌, ◌≡◌, refl, sym, ap, ◌∙◌, Bool, true, false, not, List, [], ◌∷◌, ◌++◌, map, is_empty,
  if◌then◌else◌,
}
use riteraft_ng.Outcome.{Outcome, ok}
use riteraft_ng.Exec.{Exec, modify, pure, when, ◌>>=◌, ◌>>◌, >>=-eq-ok, >>=-ok}
use riteraft_ng.Proto.{Bytes}
use riteraft_ng.Node.State.{Env, RaftNodeCore, Ready, StateMachine}
use riteraft_ng.Node.Loop.{
  Event, Running, handle_event, handle_ready, on_core, on_ready, run, turn, update_timer,
}
use riteraft_ng.Node.Replication.{
  SameMachine, apply_all, commands, keeps-machine, on_ready-receive, receive,
}
use riteraft_ng.Node.Moves.{Budget}
use riteraft_ng.Node.Moves.Turn.{handle_event-Moves, update_timer-core}

-- What a state machine is given.
pub data Feed : Type 0 where
  restores applies : (data_ : Bytes) → Feed

module _ {F : Type 0} (m : StateMachine F) where
  abbrev feed : Feed → Exec F Unit
  feed (restores d) = m.restore d
  feed (applies d) = m.apply d >>= λ _. pure tt

  unfoldable pub feed_all : List Feed → Exec F Unit
  feed_all [] = pure tt
  feed_all (x ∷ xs) = do feed x; feed_all xs

  feed_all-append :
      (xs ys : List Feed) (f g : F)
      → feed_all xs f ≡ (ok tt, g)
      → feed_all (xs ++ ys) f ≡ feed_all ys g
  unfolding feed_all
  feed_all-append [] ys f g h = ap (λ p. feed_all ys p.1) h
  feed_all-append (x ∷ xs) ys f g h =
      let (_, u, p, q) = >>=-eq-ok _ _ f h in
      >>=-ok (feed x) (λ _. feed_all (xs ++ ys)) f p ∙ feed_all-append xs ys u g q

  feed_all-applies :
      (ds : List Bytes) (f g : F)
      → apply_all m ds f ≡ (ok tt, g)
      → feed_all (map applies ds) f ≡ (ok tt, g)
  unfolding feed_all apply_all
  feed_all-applies [] f g h = h
  feed_all-applies (d ∷ ds) f g h =
      let (out, u, p, q) = >>=-eq-ok _ _ f h in
      let given : feed (applies d) f ≡ (ok tt, u) = >>=-ok (m.apply d) (λ _. pure tt) f p in
      >>=-ok (feed (applies d)) (λ _. feed_all (map applies ds)) f given ∙ feed_all-applies ds u g q

  abbrev restored : Bool → Bool → Bytes → List Feed
  restored true true d = restores d ∷ []
  restored _ _ d = []

  restored-feed_all :
      (c full : Bool) (d : Bytes) (f g : F)
      → when c (when full (m.restore d)) f ≡ (ok tt, g)
      → feed_all (restored c full d) f ≡ (ok tt, g)
  unfolding feed_all
  restored-feed_all true true d f g h = >>=-ok (m.restore d) (λ _. pure tt) f h
  restored-feed_all true false d f g h = h
  restored-feed_all false full d f g h = h

module _ {F S R : Type 0} (env : Env F S R) where
  -- The snapshot of a `Ready`, where there is one with data, and its committed commands.
  abbrev pub ready_feeds : Ready → List Feed
  ready_feeds x =
      restored env.fsm (not (env.raft.is_default x.snapshot)) (not (is_empty x.snapshot.data_))
        x.snapshot.data_
      ++ map applies (commands x.committed_entries)

  -- What raft-rs hands out to a node that works off what is ready.
  abbrev pub core_feeds : RaftNodeCore F S R → List Feed
  core_feeds s =
      let (ready, r) = env.raft.ready s.store s.raw_node in
      let u = (handle_ready env ready (record s { raw_node = r })).1 in
      let light = (env.raft.advance ready u.store u.raw_node).0 in
      if env.raft.has_ready s.store s.raw_node
      then ready_feeds ready ++ map applies (commands light.committed_entries)
      else []

  -- A turn up to the point where the node works off what is ready.
  abbrev pub before_ready : Event → ℕ → Exec (Running F S R) Unit
  before_ready event elapsed = do
    on_core env (modify (λ s. record s { now = s.now + elapsed }))
    on_core env (handle_event env event)
    update_timer env elapsed

  -- What raft-rs hands out to the node in a run.
  unfoldable pub feeds : List (Event × ℕ) → Running F S R → List Feed
  feeds [] s = []
  feeds ((e, d) ∷ es) s =
      let rest = feeds es (turn env e d s).1 in
      if s.core.should_exit then [] else core_feeds (before_ready e d s).1.core ++ rest

  ready-feed_all :
      (x : Ready) (f g : F)
      → receive env x f ≡ (ok tt, g)
      → feed_all env.fsm (ready_feeds x) f ≡ (ok tt, g)
  unfolding receive
  ready-feed_all x f g h =
      let (_, u, p, q) = >>=-eq-ok _ _ f h in
      feed_all-append env.fsm _ _ f u (restored-feed_all env.fsm _ _ x.snapshot.data_ f u p)
      ∙ feed_all-applies env.fsm (commands x.committed_entries) u g q

  module _ (same : (f : F) → (env.fsm.snapshot f).1 ≡ f) where
    on_ready-feeds :
        (b : Bool) (s t : RaftNodeCore F S R)
        → env.raft.has_ready s.store s.raw_node ≡ b
        → on_ready env s ≡ (ok tt, t)
        → feed_all env.fsm (core_feeds s) s.fsm ≡ (ok tt, t.fsm)
    unfolding feed_all on_ready
    on_ready-feeds true s t h e =
        let (ready, r) = env.raft.ready s.store s.raw_node in
        let (_, g, p, q) = >>=-eq-ok _ _ s.fsm (on_ready-receive env same s t h e) in
        rw h (
          feed_all-append env.fsm (ready_feeds ready) _ s.fsm g (ready-feed_all ready s.fsm g p)
          ∙ feed_all-applies env.fsm _ g t.fsm q)
    on_ready-feeds false s t h e =
        let idle : (ok tt, s) ≡ (ok tt, t) = rw h at e in rw h (ap (λ p. (ok tt, p.1.fsm)) idle)

    SameBudget :
        Budget
          (λ f g. g ≡ f)
          (λ (s : RaftNodeCore F S R) o t. t.fsm ≡ s.fsm)
          (λ s o t. t.fsm ≡ s.fsm)
    SameBudget = record {
      basic = SameMachine env same;
      weaken = λ s t o h. h;
      before = λ s t u o h k. k ∙ h;
      after = λ s t u o h k. k ∙ h;
      keep = λ s x. refl;
    }

    turn-feeds :
        (e : Event) (d : ℕ) (s t : Running F S R)
        → turn env e d s ≡ (ok tt, t)
        → feed_all env.fsm (core_feeds (before_ready e d s).1.core) s.core.fsm ≡ (ok tt, t.core.fsm)
    unfolding turn
    turn-feeds e d s t h =
        let (_, c, p, h1) = >>=-eq-ok _ _ s h in
        let (_, w, q, h2) = >>=-eq-ok _ _ c h1 in
        let (_, v, r, h3) = >>=-eq-ok _ _ w h2 in
        let handled : w.core.fsm ≡ c.core.fsm =
          sym (ap (λ z. z.1.core.fsm) q) ∙ (handle_event-Moves SameBudget env same e).at c.core in
        let timed : v.core.fsm ≡ w.core.fsm =
          sym (ap (λ z. z.1.core.fsm) r) ∙ update_timer-core SameBudget env same d w in
        let clocked : c.core.fsm ≡ s.core.fsm = sym (ap (λ z. z.1.core.fsm) p) in
        let got : before_ready e d s ≡ (ok tt, v) = >>=-ok _ _ s p ∙ >>=-ok _ _ c q ∙ r in
        let worked = on_ready-feeds _ v.core t.core refl (ap (λ z. (z.0, z.1.core)) h3) in
        ap (λ z. feed_all env.fsm (core_feeds z.1.core) s.core.fsm) got
        ∙ ap (feed_all env.fsm (core_feeds v.core)) (sym (timed ∙ handled ∙ clocked))
        ∙ worked

    run_or_exit :
        (c b : Bool) (xs : List Feed) (s t : Running F S R) (y : Outcome Bool × Running F S R)
        → (if c then (ok true, s) else y) ≡ (ok b, t)
        → (y ≡ (ok b, t) → feed_all env.fsm xs s.core.fsm ≡ (ok tt, t.core.fsm))
        → feed_all env.fsm (if c then [] else xs) s.core.fsm ≡ (ok tt, t.core.fsm)
    unfolding feed_all
    run_or_exit true b xs s t y h k = ap (λ p. (ok tt, p.1.core.fsm)) h
    run_or_exit false b xs s t y h k = k h

    pub run-feeds :
        (es : List (Event × ℕ)) (s t : Running F S R) (b : Bool)
        → run env es s ≡ (ok b, t)
        → feed_all env.fsm (feeds es s) s.core.fsm ≡ (ok tt, t.core.fsm)
    unfolding run feeds feed_all
    run-feeds [] s t b h = ap (λ p. (ok tt, p.1.core.fsm)) h
    run-feeds ((e, d) ∷ es) s t b h = run_or_exit s.core.should_exit b _ s t _ h λ g.
        let (_, u, p, q) = >>=-eq-ok _ _ s g in
        let turned = turn-feeds e d s u p in
        rw p (
          feed_all-append env.fsm _ (feeds es u) s.core.fsm u.core.fsm turned
          ∙ run-feeds es u t b q)

-- Two nodes, with whatever stores, peers, requests and times, but with the same state machine, of
-- which taking a snapshot changes nothing, and in the same state of it: where both runs end without
-- an error, each has given its state machine what raft-rs handed out to it, in order, and nothing
-- else, namely the data of the snapshots and of the committed entries that are no membership changes
-- and not empty; and where that was the same, both state machines are in the same state.
pub replicas-agree :
    {F S1 R1 S2 R2 : Type 0} (one : Env F S1 R1) (two : Env F S2 R2) (es1 es2 : List (Event × ℕ))
    (s1 t1 : Running F S1 R1) (s2 t2 : Running F S2 R2) (b1 b2 : Bool)
    → one.fsm ≡ two.fsm
    → ((f : F) → (one.fsm.snapshot f).1 ≡ f)
    → run one es1 s1 ≡ (ok b1, t1)
    → run two es2 s2 ≡ (ok b2, t2)
    → feeds one es1 s1 ≡ feeds two es2 s2
    → s1.core.fsm ≡ s2.core.fsm
    → (feed_all one.fsm (feeds one es1 s1) s1.core.fsm ≡ (ok tt, t1.core.fsm))
      × (feed_all two.fsm (feeds two es2 s2) s2.core.fsm ≡ (ok tt, t2.core.fsm))
      × (t1.core.fsm ≡ t2.core.fsm)
replicas-agree {F = F} one two es1 es2 s1 t1 s2 t2 b1 b2 m same h1 h2 e f =
    let same2 = λ (g : F). ap (λ x. (x.snapshot g).1) (sym m) ∙ same g in
    let given1 = run-feeds one same es1 s1 t1 b1 h1 in
    let given2 = run-feeds two same2 es2 s2 t2 b2 h2 in
    let alike : feed_all one.fsm (feeds one es1 s1) s1.core.fsm
        ≡ feed_all two.fsm (feeds two es2 s2) s2.core.fsm =
      ap (λ x. feed_all x (feeds one es1 s1) s1.core.fsm) m
      ∙ ap (λ xs. feed_all two.fsm xs s1.core.fsm) e
      ∙ ap (feed_all two.fsm (feeds two es2 s2)) f in
    (given1, given2, ap (λ p. p.1) (sym given1 ∙ alike ∙ given2))
