-- ===== src/Node/Replication.antt =====
-- raftify/src/raft_node/mod.rs: what becomes of the state machine when the node works off what
-- raft-rs has ready.
use riteraft_ng.Prelude.{
  ◌≡◌, refl, sym, ap, ◌∙◌, Bool, true, false, not, List, [], ◌∷◌, ◌++◌, is_empty, if◌then◌else◌,
}
use riteraft_ng.Outcome.{Outcome, ok}
use riteraft_ng.Exec.{Exec, pure, when, ◌>>=◌, ◌>>◌, >>=-eq-ok, >>=-ok}
use riteraft_ng.Proto.{
  Bytes, Entry, Snapshot, EntryType, entry_normal, entry_conf_change, entry_conf_change_v2,
}
use riteraft_ng.Node.State.{Env, RaftNodeCore, Ready, LightReady, StateMachine, on_fsm, on_store}
use riteraft_ng.Node.Commit
use riteraft_ng.Node.Commit.{handle_committed_entries, handle_committed_normal_entry}
use riteraft_ng.Node.Loop.{handle_ready, handle_light_ready, on_ready}
use riteraft_ng.Node.Moves.{Basic, Moves}
use riteraft_ng.Node.Moves.Loop.{after_entries-Moves, persist_commit-Moves}
use riteraft_ng.Node.Moves.Commit.{after_apply-Moves, handle_committed_config_change_entry-Moves}

-- What an entry asks of the state machine: a membership change and an empty entry ask nothing.
abbrev command_of : EntryType → Bytes → List Bytes
command_of entry_normal data_ = if is_empty data_ then [] else data_ ∷ []
command_of _ data_ = []

unfoldable pub commands : List Entry → List Bytes
commands [] = []
commands (e ∷ es) = command_of e.entry_type e.data_ ++ commands es

module _ {F : Type 0} (m : StateMachine F) where
  -- The state machine is given the commands in order.
  unfoldable pub apply_all : List Bytes → Exec F Unit
  apply_all [] = pure tt
  apply_all (d ∷ ds) = m.apply d >>= λ _. apply_all ds

  apply_all-append :
      (xs ys : List Bytes) (f g : F)
      → apply_all xs f ≡ (ok tt, g)
      → apply_all (xs ++ ys) f ≡ apply_all ys g
  unfolding apply_all ◌>>=◌
  apply_all-append [] ys f g h = ap (λ p. apply_all ys p.1) h
  apply_all-append (x ∷ xs) ys f g h =
      let (d, u, p, q) = >>=-eq-ok (m.apply x) (λ _. apply_all xs) f h in
      rw p (apply_all-append xs ys u g q)

module _ {F S R : Type 0} (env : Env F S R) where
  -- What a `Ready` asks of the state machine.
  unfoldable pub receive : Ready → Exec F Unit
  receive x = do
    when (not (env.raft.is_default x.snapshot))
        (when (not (is_empty x.snapshot.data_)) (env.fsm.restore x.snapshot.data_))
    apply_all env.fsm (commands x.committed_entries)

module _ {F S R : Type 0} (env : Env F S R) (same : (f : F) → (env.fsm.snapshot f).1 ≡ f) where
  abbrev pub May : F → F → Type 0
  May f g = g ≡ f

  pub SameMachine : Basic May (λ (s : RaftNodeCore F S R) o t. t.fsm ≡ s.fsm)
  SameMachine = record {
    same = λ s o. refl;
    trans = λ s t u o h k. k ∙ h;
    world = λ s r d p o. refl;
    machine = λ s f o h. h;
    clock = λ s n m. refl;
    exit = λ s. refl;
    reply = λ s r. refl;
    spawn = λ s ms. refl;
    nobody = λ s k h. refl;
    answer = λ s k x r h a. refl;
    lost = λ s k. refl;
  }

  pub keeps-machine :
      {A : Type 0} {m : Exec (RaftNodeCore F S R) A} {s t : RaftNodeCore F S R} {r : Outcome A}
      → Moves (λ s o t. t.fsm ≡ s.fsm) m
      → m s ≡ (r, t)
      → t.fsm ≡ s.fsm
  keeps-machine {s = s} h e = sym (ap (λ p. p.1.fsm) e) ∙ h.at s

  normal_entry-apply :
      (e : Entry) (s t : RaftNodeCore F S R)
      → handle_committed_normal_entry env e s ≡ (ok tt, t)
      → (d : Bytes) × (env.fsm.apply e.data_ s.fsm ≡ (ok d, t.fsm))
  unfolding handle_committed_normal_entry
  normal_entry-apply e s t h =
      let (seq, u, p, h1) = >>=-eq-ok _ _ s h in
      let (d, v, q, h2) = >>=-eq-ok _ _ u h1 in
      let from : s.fsm ≡ u.fsm = ap (λ p. p.1.fsm) p in
      let to : t.fsm ≡ v.fsm =
        keeps-machine (after_apply-Moves SameMachine env same seq e.index e.term) h2 in
      (d, rw (from, to) (ap (λ p. (p.0, p.1.fsm)) q))

  nonempty_entry-apply_all :
      (x : Bool) (e : Entry) (s t : RaftNodeCore F S R)
      → (if x then pure tt else handle_committed_normal_entry env e) s ≡ (ok tt, t)
      → apply_all env.fsm (if x then [] else e.data_ ∷ []) s.fsm ≡ (ok tt, t.fsm)
  unfolding apply_all ◌>>=◌
  nonempty_entry-apply_all true e s t h = ap (λ p. (ok tt, p.1.fsm)) h
  nonempty_entry-apply_all false e s t h = let (d, a) = normal_entry-apply e s t h in rw a

  typed_entry-apply_all :
      (x : EntryType) (e : Entry) (s t : RaftNodeCore F S R)
      → Commit.handle_typed_entry env x e s ≡ (ok tt, t)
      → apply_all env.fsm (command_of x e.data_) s.fsm ≡ (ok tt, t.fsm)
  unfolding apply_all
  typed_entry-apply_all entry_normal e s t h = nonempty_entry-apply_all (is_empty e.data_) e s t h
  typed_entry-apply_all entry_conf_change e s t h =
      ap (λ f. (ok tt, f))
        (sym (keeps-machine (handle_committed_config_change_entry-Moves SameMachine env same e) h))
  typed_entry-apply_all entry_conf_change_v2 e s t h =
      ap (λ f. (ok tt, f))
        (sym (keeps-machine (handle_committed_config_change_entry-Moves SameMachine env same e) h))

  pub committed_entries-apply_all :
      (es : List Entry) (s t : RaftNodeCore F S R)
      → handle_committed_entries env es s ≡ (ok tt, t)
      → apply_all env.fsm (commands es) s.fsm ≡ (ok tt, t.fsm)
  unfolding handle_committed_entries commands apply_all
  committed_entries-apply_all [] s t h = ap (λ p. (ok tt, p.1.fsm)) h
  committed_entries-apply_all (e ∷ es) s t h =
      let (_, u, p, q) = >>=-eq-ok _ _ s h in
      apply_all-append env.fsm (command_of e.entry_type e.data_) (commands es) s.fsm u.fsm
        (typed_entry-apply_all e.entry_type e s u p)
      ∙ committed_entries-apply_all es u t q

  restore_snapshot-machine :
      (c full : Bool) (x : Snapshot) (s t : RaftNodeCore F S R)
      → when c
          (when full (on_fsm (env.fsm.restore x.data_)) >> on_store (env.storage.apply_snapshot x))
          s
        ≡ (ok tt, t)
      → when c (when full (env.fsm.restore x.data_)) s.fsm ≡ (ok tt, t.fsm)
  restore_snapshot-machine true true x s t h =
      let (_, u, p, q) = >>=-eq-ok _ _ s h in
      let kept : u.fsm ≡ t.fsm = ap (λ z. z.1.fsm) q in
      ap (λ z. (z.0, z.1.fsm)) p ∙ ap (λ f. (ok tt, f)) kept
  restore_snapshot-machine true false x s t h =
      let (_, u, p, q) = >>=-eq-ok _ _ s h in
      let kept : u.fsm ≡ t.fsm = ap (λ z. z.1.fsm) q in
      ap (λ z. (z.0, z.1.fsm)) p ∙ ap (λ f. (ok tt, f)) kept
  restore_snapshot-machine false full x s t h = ap (λ z. (z.0, z.1.fsm)) h

  else_branch {ℓ} :
      {A : Type ℓ} (b : Bool) (x : A) {y z : A} → b ≡ true → (if not b then x else y) ≡ z → y ≡ z
  else_branch true x h e = e
  else_branch false x h e = cc

  handle_ready-receive :
      (x : Ready) (s t : RaftNodeCore F S R)
      → handle_ready env x s ≡ (ok tt, t)
      → receive env x s.fsm ≡ (ok tt, t.fsm)
  unfolding handle_ready receive
  handle_ready-receive x s t h =
      let (_, c, o, h0) = >>=-eq-ok _ _ s h in
      let (_, u, p, h1) = >>=-eq-ok _ _ c h0 in
      let (_, v, q, h2) = >>=-eq-ok _ _ u h1 in
      let sent : c.fsm ≡ s.fsm = sym (ap (λ z. z.1.fsm) o) in
      let restored =
        restore_snapshot-machine (not (env.raft.is_default x.snapshot))
          (not (is_empty x.snapshot.data_)) x.snapshot c u p in
      let applied = committed_entries-apply_all x.committed_entries u v q in
      let kept : t.fsm ≡ v.fsm = keeps-machine (after_entries-Moves SameMachine env x) h2 in
      ap (receive env x) (sym sent)
      ∙ >>=-ok _ _ c.fsm restored
      ∙ applied
      ∙ ap (λ f. (ok tt, f)) (sym kept)

  handle_light_ready-apply_all :
      (x : LightReady) (s t : RaftNodeCore F S R)
      → handle_light_ready env x s ≡ (ok tt, t)
      → apply_all env.fsm (commands x.committed_entries) s.fsm ≡ (ok tt, t.fsm)
  unfolding handle_light_ready
  handle_light_ready-apply_all x s t h =
      let (_, u, p, h1) = >>=-eq-ok _ _ s h in
      let (_, v, q, h2) = >>=-eq-ok _ _ u h1 in
      let stored : u.fsm ≡ s.fsm =
        keeps-machine (persist_commit-Moves SameMachine env x.commit_index) p in
      let sent : v.fsm ≡ u.fsm = sym (ap (λ z. z.1.fsm) q) in
      ap (apply_all env.fsm (commands x.committed_entries)) (sym stored ∙ sym sent)
      ∙ committed_entries-apply_all x.committed_entries v t h2

  -- Where taking a snapshot leaves the state machine as it is, and the node has something ready and works
  -- it off without an error: the state machine is restored from the snapshot in it, if there is one
  -- with data, and then applies, in order, the data of the committed entries that are no membership
  -- changes and not empty, first those of the `Ready` and then those of the `LightReady` with
  -- which raft-rs answers; and nothing else changes it.
  pub on_ready-receive :
      (s t : RaftNodeCore F S R)
      → env.raft.has_ready s.store s.raw_node ≡ true
      → on_ready env s ≡ (ok tt, t)
      → let (ready, r) = env.raft.ready s.store s.raw_node in
        let u = (handle_ready env ready (record s { raw_node = r })).1 in
        let light = (env.raft.advance ready u.store u.raw_node).0 in
        (receive env ready >>= λ _. apply_all env.fsm (commands light.committed_entries)) s.fsm
        ≡ (ok tt, t.fsm)
  unfolding on_ready
  on_ready-receive s t h e =
      let (ready, r) = env.raft.ready s.store s.raw_node in
      let c : RaftNodeCore F S R = record s { raw_node = r } in
      let g = sym (>>=-ok _ _ s refl) ∙ else_branch (env.raft.has_ready s.store s.raw_node) _ h e in
      let (_, u, p, g1) = >>=-eq-ok _ _ c g in
      let (_, v, q, g2) = >>=-eq-ok _ _ _ (sym (>>=-ok _ _ u refl) ∙ g1) in
      let kept : v.fsm ≡ t.fsm = ap (λ z. z.1.fsm) g2 in
      rw p (
        >>=-ok (receive env ready) _ s.fsm (handle_ready-receive ready c u p)
        ∙ handle_light_ready-apply_all _ _ v q
        ∙ ap (λ f. (ok tt, f)) kept)
