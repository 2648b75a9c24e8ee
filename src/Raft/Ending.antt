-- ===== src/Raft/Ending.antt =====
-- raftify/src/raft_node/mod.rs and raftify/src/raft_bootstrapper.rs: a node that is asked to quit ends.
use mathlib.Core.Option
use riteraft_ng.Prelude.{
  ℕ, ◌≡◌, refl, sym, ap, ◌∙◌, if◌then◌else◌, true, false, Bool, some, none, List, [], ◌∷◌, ◌++◌,
  arith, Bool-cases,
}
use riteraft_ng.Outcome.{Outcome, ok}
use riteraft_ng.Exec.{continue, ◌>>=◌, >>=-eq-ok}
use riteraft_ng.Node.Messages.{LocalRequestMsg, LocalResponseMsg}
use riteraft_ng.Node.State.{Env, RaftNodeCore, send_local}
use riteraft_ng.Node.Dispatch.{handle_local_request_msg}
use riteraft_ng.Node.Loop.{Event, from_local, Running, run, turn}
use riteraft_ng.Node.Invariants.{Evolves-Budget}
use riteraft_ng.Node.Moves.{anything}
use riteraft_ng.Node.Moves.Loop.{on_ready-Moves}
use riteraft_ng.Node.Moves.Turn.{update_timer-core}
use riteraft_ng.Bootstrap.{start}
use riteraft_ng.Raft

if_false {ℓ} : {A : Type ℓ} (b : Bool) (x y : A) → b ≡ false → (if b then x else y) ≡ y
if_false true x y h = cc
if_false false x y h = refl

if_true {ℓ} : {A : Type ℓ} (b : Bool) (x y : A) → b ≡ true → (if b then x else y) ≡ x
if_true true x y h = refl
if_true false x y h = cc

if_ok_false {ℓ} :
    {A : Type ℓ} (b : Bool) (s u : A) (y : Outcome Bool × A)
    → (if b then (ok true, s) else y) ≡ (ok false, u)
    → (b ≡ false) × (y ≡ (ok false, u))
if_ok_false true s u y h = cc (ap (λ p. p.0) h)
if_ok_false false s u y h = (refl, h)

module _ {F S R : Type 0} (env : Env F S R) where
  run-next :
      (e : Event) (d : ℕ) (es : List (Event × ℕ)) (s w : Running F S R)
      → s.core.should_exit ≡ false
      → turn env e d s ≡ (ok tt, w)
      → run env ((e, d) ∷ es) s ≡ run env es w
  unfolding run ◌>>=◌
  run-next e d es s w x f =
      if_false s.core.should_exit _ _ x ∙ ap (λ p. continue p.0 (λ _. run env es) p.1) f

  -- The loop goes on where it waits.
  run-append :
      (before after : List (Event × ℕ)) (s u : Running F S R)
      → run env before s ≡ (ok false, u)
      → (u.core.should_exit ≡ false) × (run env (before ++ after) s ≡ run env after u)
  unfolding run
  run-append [] after s u h =
      let same : s ≡ u = ap (λ p. p.1) h in
      let waits : s.core.should_exit ≡ false = cc (ap (λ p. p.0) h) in
      (ap (λ x. x.core.should_exit) (sym same) ∙ waits, ap (run env after) same)
  run-append ((e, d) ∷ es) after s u h =
      let (x, g) = if_ok_false s.core.should_exit s u _ h in
      let (a, w, f, k) = >>=-eq-ok _ _ s g in
      let (y, j) = run-append es after w u k in (y, run-next e d (es ++ after) s w x f ∙ j)

  send_local-exit :
      (tx : ℕ) (m : LocalResponseMsg F S R) (k : RaftNodeCore F S R)
      → (send_local tx m k).1.should_exit ≡ k.should_exit
  send_local-exit tx m k = ground (arith, Bool-cases (k.receivers tx))

  -- A turn that handles a request to quit leaves the node decided to exit.
  turn-quit :
      (tx d : ℕ) (s t : Running F S R)
      → turn env (from_local (LocalRequestMsg.quit tx)) d s ≡ (ok tt, t)
      → t.core.should_exit ≡ true
  unfolding turn handle_local_request_msg
  turn-quit tx d s t h =
      let (_, c, _, k0) = >>=-eq-ok _ _ s h in
      let (_, w, e1, k1) = >>=-eq-ok _ _ c k0 in
      let (_, v, e2, e3) = >>=-eq-ok _ _ w k1 in
      let decided : w.core.should_exit ≡ true =
        sym (ap (λ p. p.1.core.should_exit) e1)
        ∙ send_local-exit tx LocalResponseMsg.quit (record c.core { should_exit = true }) in
      let timed : v.core.should_exit ≡ true =
        sym (ap (λ p. p.1.core.should_exit) e2)
        ∙ (update_timer-core Evolves-Budget env (anything env.fsm).snapshot d w).should_exit
            decided in
      sym (ap (λ p. p.1.core.should_exit) e3)
      ∙ ((on_ready-Moves Evolves-Budget.basic env (anything env.fsm)).at v.core).should_exit timed

  run-exit :
      (es : List (Event × ℕ)) (s : Running F S R)
      → s.core.should_exit ≡ true
      → run env es s ≡ (ok true, s)
  unfolding run
  run-exit [] s h = ap (λ b. (ok b, s)) h
  run-exit ((e, d) ∷ es) s h = if_true s.core.should_exit _ _ h

  -- A node whose loop, on the events so far, ended no turn with an error and still waits, and which
  -- then handles a request to quit in a turn that ends without an error, ends there, whatever events
  -- would follow; and `Raft::run` returns without an error, where the server has not ended before.
  pub run-quit :
      (core : RaftNodeCore F S R) (before after : List (Event × ℕ)) (tx d : ℕ) (u t : Running F S R)
      → run env before (start env core) ≡ (ok false, u)
      → turn env (from_local (LocalRequestMsg.quit tx)) d u ≡ (ok tt, t)
      → let events = before ++ (from_local (LocalRequestMsg.quit tx), d) ∷ after in
        (run env events (start env core) ≡ (ok true, t))
        × (Raft.run_node env events (Raft.new core) ≡ (some (ok tt), record { content = none }))
        × (Option.map
              (λ r. Raft.run true (Raft.raft_node_ended r))
              (Raft.run_node env events (Raft.new core)).0
            ≡ some (ok tt))
  unfolding Raft.run_node Raft.run
  run-quit core before after tx d u t h k =
      let (x, e) = run-append before ((from_local (LocalRequestMsg.quit tx), d) ∷ after) _ u h in
      let ends = e ∙ run-next _ d after u t x k ∙ run-exit after t (turn-quit tx d u t k) in
      let ran = ap (λ p. (Raft.finished p.0, record { content = none })) ends in
      (ends, ran, ap (λ p. Option.map (λ r. Raft.run true (Raft.raft_node_ended r)) p.0) ran)
