-- ===== src/Node/Moves/Commit.antt =====
-- raftify/src/raft_node/mod.rs: the handlers of committed entries make only the basic changes.
use mathlib.Core.Path.{subst}
use riteraft_ng.Prelude.{
  Bool, true, false, ◌≡◌, refl, sym, ◌⊎◌, inl, inr, ◌++◌, Option-cases, ℕ, ◌+◌, Option, none, some,
  List, [], ◌∷◌, ltb, ◌==◌, is_empty,
}
use riteraft_ng.Outcome.{Outcome, ok, err, panic, is_ok}
use riteraft_ng.Exec.{Exec, continue, ◌>>=◌, ◌>>◌}
use riteraft_ng.HashMap
use riteraft_ng.Net.{SocketAddr}
use riteraft_ng.Peers
use riteraft_ng.Peers.{Peers, InitialRole}
use riteraft_ng.Proto.{
  ConfChangeSingle, ConfChangeType, add_node, remove_node, add_learner_node, ConfChangeV2,
  ConfState, Entry, EntryType, entry_normal, entry_conf_change, entry_conf_change_v2,
}
use riteraft_ng.Node.Messages.{
  ConfChangeResponseResult, LocalResponseMsg, ResponseSender, ServerResponseMsg, local, server,
}
use riteraft_ng.Node.State.{Env, RaftNodeCore, Reply, to_local, to_server, post}
use riteraft_ng.Node.Commit
use riteraft_ng.Node.Moves.{
  Moves, Basic, Machine, IsAddressed, bind-Moves, same-Moves, on_store-Moves, on_fsm-Moves,
  on_raft-Moves, if-Moves, choose-Moves,
}

module _ {F S R : Type 0} {May : F → F → Type 0}
    {Rel : RaftNodeCore F S R → Bool → RaftNodeCore F S R → Type 0} (b : Basic May Rel)
    (env : Env F S R) (snap : (f : F) → May f (env.fsm.snapshot f).1) where
  pub make_snapshot-Moves : (index term : ℕ) → Moves Rel (Commit.make_snapshot env index term)
  unfolding Commit.make_snapshot
  make_snapshot-Moves index term =
      bind-Moves b _ _ (record { at = λ s. b.clock s s.now s.now })
        λ _. bind-Moves b _ _ (on_fsm-Moves b _ snap) λ d.
          bind-Moves b _ _ (same-Moves b _)
            λ a. bind-Moves b _ _ (on_store-Moves b _) λ _. on_store-Moves b _

  -- What is done with a sender: it is sent one answer, or nothing changes and the handler fails.
  record Answers (f : Option ResponseSender → Exec (RaftNodeCore F S R) Unit) : Type 0 where
    nobody : (s : RaftNodeCore F S R) → f none s ≡ (ok tt, s)
    somebody :
        (x : ResponseSender) (s : RaftNodeCore F S R)
        → ((r : Reply F S R) × IsAddressed x r
            × (f (some x) s ≡ (ok tt, record s { replies = s.replies ++ r ∷ [] })))
          ⊎ ((is_ok (f (some x) s).0 ≡ false) × ((f (some x) s).1 ≡ s))

  answer_waiting-Moves :
      (seq : ℕ) (f : Option ResponseSender → Exec (RaftNodeCore F S R) Unit)
      → Answers f
      → Moves Rel (Commit.answer_waiting env seq f)
  unfolding Commit.take_sender ◌>>=◌
  answer_waiting-Moves seq f a = record {
    at = λ s.
        let t : RaftNodeCore F S R = record s {
          response_senders = HashMap.remove seq s.response_senders;
        } in
        elim (Option-cases (HashMap.get seq s.response_senders)) [
          | inl n ↦ rw n (
              subst (λ (p : Outcome Unit × RaftNodeCore F S R). Rel s (is_ok p.0) p.1)
                (sym (a.nobody t)) (b.nobody s seq n))
          | inr (x, g) ↦ elim (a.somebody x t) [
            | inl (r, to, e) ↦ rw g (
                subst (λ (p : Outcome Unit × RaftNodeCore F S R). Rel s (is_ok p.0) p.1) (sym e)
                  (b.answer s seq x r g to))
            | inr (fails, e) ↦ rw (g, fails, e) (b.lost s seq)
          ]
        ];
  }

  post-answers :
      (x : ResponseSender) (r : Reply F S R) (s : RaftNodeCore F S R) (here : Bool)
      → IsAddressed x r
      → ((q : Reply F S R) × IsAddressed x q
          × (post here r s ≡ (ok tt, record s { replies = s.replies ++ q ∷ [] })))
        ⊎ ((is_ok (post here r s).0 ≡ false) × ((post here r s).1 ≡ s))
  post-answers x r s true a = inl (r, a, refl)
  post-answers x r s false a = inr (refl, refl)

  answer_propose-Answers : Answers (Commit.answer_propose env)
  answer_propose-Answers = record { nobody = λ s. refl; somebody = go }
    where
      go :
          (x : ResponseSender) (s : RaftNodeCore F S R)
          → ((r : Reply F S R) × IsAddressed x r
              × (Commit.answer_propose env (some x) s
                  ≡ (ok tt, record s { replies = s.replies ++ r ∷ [] })))
            ⊎ ((is_ok (Commit.answer_propose env (some x) s).0 ≡ false)
                × ((Commit.answer_propose env (some x) s).1 ≡ s))
      go (local tx) s = post-answers (local tx) (to_local tx _) s (s.receivers tx) refl
      go (server tx) s = post-answers (server tx) (to_server tx _) s (s.receivers tx) refl

  snapshot_after-Moves :
      (x : Option ℕ) (index term : ℕ) → Moves Rel (Commit.snapshot_after env x index term)
  snapshot_after-Moves none index term = same-Moves b _
  snapshot_after-Moves (some i) index term =
      if-Moves (λ t. ltb (t.last_snapshot_created + i) t.now) _ _ (make_snapshot-Moves index term)
        (same-Moves b _)

  -- What follows once a command was applied.
  pub after_apply-Moves :
      (seq index term : ℕ)
      → Moves Rel (
          Commit.answer_waiting env seq (Commit.answer_propose env)
          >> Commit.snapshot_if_due env index term)
  after_apply-Moves seq index term =
      bind-Moves b _ _ (answer_waiting-Moves seq _ answer_propose-Answers)
        λ _. record { at = λ s. (snapshot_after-Moves s.config.snapshot_interval index term).at s }

  set_peers-Moves : (x : Outcome Peers) → Moves Rel (Commit.set_peers env x)
  set_peers-Moves (ok p) = record { at = λ s. b.world s s.raw_node s.store p _ }
  set_peers-Moves (err e) = same-Moves b _
  set_peers-Moves panic = same-Moves b _

  pub on_peers-Moves : (f : Peers → Outcome Peers) → Moves Rel (Commit.on_peers env f)
  on_peers-Moves f = record { at = λ s. (set_peers-Moves (f s.peers)).at s }

  add_member-Moves :
      (id : ℕ) (a : Option SocketAddr) (role : InitialRole)
      → Moves Rel (Commit.add_member env id a role)
  add_member-Moves id none role = same-Moves b _
  add_member-Moves id (some a) role = on_peers-Moves _

  change_member-Moves :
      (x : ConfChangeType) (id : ℕ) (a : Option SocketAddr)
      → Moves Rel (Commit.change_member env x id a)
  change_member-Moves add_node id a = add_member-Moves id a Peers.voter
  change_member-Moves add_learner_node id a = add_member-Moves id a Peers.learner
  change_member-Moves remove_node id a =
      if-Moves (λ t. id == env.raft.id t.raw_node) _ _ (record { at = b.exit })
        (record { at = λ t. b.world t t.raw_node t.store _ _ })

  apply_members-Moves :
      (addrs : List SocketAddr) (i : ℕ) (cs : List ConfChangeSingle)
      → Moves Rel (Commit.apply_members env addrs i cs)
  unfolding Commit.apply_members
  apply_members-Moves addrs i [] = same-Moves b _
  apply_members-Moves addrs i (c ∷ cs) =
      bind-Moves b _ _ (change_member-Moves c.change_type c.node_id _)
        λ _. apply_members-Moves addrs (i + 1) cs

  -- The result of the change, which may be a panic, and the message that carries it.
  continue-answers :
      (x : ResponseSender) (c : Outcome ConfChangeResponseResult)
      (f : ConfChangeResponseResult → Reply F S R) (s : RaftNodeCore F S R)
      (here : RaftNodeCore F S R → Bool)
      → ((r : ConfChangeResponseResult) → IsAddressed x (f r))
      → ((q : Reply F S R) × IsAddressed x q
          × (continue c (λ r u. post (here u) (f r) u) s
              ≡ (ok tt, record s { replies = s.replies ++ q ∷ [] })))
        ⊎ ((is_ok (continue c (λ r u. post (here u) (f r) u) s).0 ≡ false)
            × ((continue c (λ r u. post (here u) (f r) u) s).1 ≡ s))
  continue-answers x (ok r) f s here a = post-answers x (f r) s (here s) (a r)
  continue-answers x (err e) f s here a = inr (refl, refl)
  continue-answers x panic f s here a = inr (refl, refl)

  answer_change-Answers : (cs : List ConfChangeSingle) → Answers (Commit.answer_change env cs)
  unfolding ◌>>=◌
  answer_change-Answers cs = record { nobody = λ s. refl; somebody = go }
    where
      go :
          (x : ResponseSender) (s : RaftNodeCore F S R)
          → ((r : Reply F S R) × IsAddressed x r
              × (Commit.answer_change env cs (some x) s
                  ≡ (ok tt, record s { replies = s.replies ++ r ∷ [] })))
            ⊎ ((is_ok (Commit.answer_change env cs (some x) s).0 ≡ false)
                × ((Commit.answer_change env cs (some x) s).1 ≡ s))
      go (local tx) s =
          continue-answers (local tx) (Commit.change_response env cs s.peers)
            (λ r. to_local tx (LocalResponseMsg.config_change r)) s (λ u. u.receivers tx)
            (λ r. refl)
      go (server tx) s =
          continue-answers (server tx) (Commit.change_response env cs s.peers)
            (λ r. to_server tx (ServerResponseMsg.config_change r)) s (λ u. u.receivers tx)
            (λ r. refl)

  after_change-Moves : (e : Entry) (r : Outcome ConfState) → Moves Rel (Commit.after_change env e r)
  after_change-Moves e (ok c) =
      bind-Moves b _ _ (on_store-Moves b _) λ _. make_snapshot-Moves e.index e.term
  after_change-Moves e (err x) = same-Moves b _
  after_change-Moves e panic = same-Moves b _

  apply_change-Moves :
      (change : ConfChangeV2) (e : Entry) → Moves Rel (Commit.apply_change env change e)
  apply_change-Moves change e = record {
    at = λ s.
        let (r, t) = env.raft.apply_conf_change change s.store s.raw_node in
        b.trans s (record s { raw_node = t }) _ _ (b.world s t s.store s.peers true)
          ((after_change-Moves e r).at (record s { raw_node = t }));
  }

  leave_joint-Moves : (change : ConfChangeV2) → Moves Rel (Commit.leave_joint env change)
  unfolding Commit.leave_joint
  leave_joint-Moves change = bind-Moves b _ _ (on_raft-Moves b _) λ c. on_store-Moves b _

  change_members-Moves :
      (change : ConfChangeV2) (e : Entry) → Moves Rel (Commit.change_members env change e)
  unfolding Commit.change_members
  change_members-Moves change e = bind-Moves b _ _ (same-Moves b _) λ addrs.
      bind-Moves b _ _ (apply_members-Moves addrs 0 change.changes) λ _.
        bind-Moves b _ _ (apply_change-Moves change e) λ _.
          bind-Moves b _ _ (same-Moves b _)
            λ seq. answer_waiting-Moves seq _ (answer_change-Answers change.changes)

  pub handle_committed_config_change_entry-Moves :
      (e : Entry) → Moves Rel (Commit.handle_committed_config_change_entry env e)
  unfolding Commit.handle_committed_config_change_entry
  handle_committed_config_change_entry-Moves e = bind-Moves b _ _ (same-Moves b _) λ change.
      choose-Moves (is_empty e.context) _ _ (leave_joint-Moves change)
        (change_members-Moves change e)

module _ {F S R : Type 0} {May : F → F → Type 0}
    {Rel : RaftNodeCore F S R → Bool → RaftNodeCore F S R → Type 0} (b : Basic May Rel)
    (env : Env F S R) (k : Machine env.fsm May) where
  handle_committed_normal_entry-Moves :
      (e : Entry) → Moves Rel (Commit.handle_committed_normal_entry env e)
  unfolding Commit.handle_committed_normal_entry
  handle_committed_normal_entry-Moves e = bind-Moves b _ _ (same-Moves b _) λ seq.
      bind-Moves b _ _ (on_fsm-Moves b _ (k.apply e.data_))
        λ _. after_apply-Moves b env k.snapshot seq e.index e.term

  handle_typed_entry-Moves :
      (t : EntryType) (e : Entry) → Moves Rel (Commit.handle_typed_entry env t e)
  handle_typed_entry-Moves entry_normal e =
      choose-Moves (is_empty e.data_) _ _ (same-Moves b _) (handle_committed_normal_entry-Moves e)
  handle_typed_entry-Moves entry_conf_change e =
      handle_committed_config_change_entry-Moves b env k.snapshot e
  handle_typed_entry-Moves entry_conf_change_v2 e =
      handle_committed_config_change_entry-Moves b env k.snapshot e

  pub handle_committed_entries-Moves :
      (es : List Entry) → Moves Rel (Commit.handle_committed_entries env es)
  unfolding Commit.handle_committed_entries
  handle_committed_entries-Moves [] = same-Moves b _
  handle_committed_entries-Moves (e ∷ es) =
      bind-Moves b _ _ (handle_typed_entry-Moves e.entry_type e)
        λ _. handle_committed_entries-Moves es
