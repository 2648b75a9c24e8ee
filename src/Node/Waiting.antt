-- ===== src/Node/Waiting.antt =====
-- raftify/src/raft_node/mod.rs: no request that waits for a commit is forgotten.
mod Examples
use mathlib.Core.Path.{subst}
use riteraft_ng.Prelude.{
  ℕ, ◌+◌, ◌<◌, ◌%◌, ◌≡◌, refl, sym, ap, ◌∙◌, ◌⊎◌, inl, inr, Bool, true, false, none, some, List, [],
  ◌∷◌, ◌++◌, arith, ◌==◌, if◌then◌else◌, Bool-cases, length, append_nil, append_assoc,
}
use riteraft_ng.Outcome.{Outcome, ok, is_ok}
use riteraft_ng.Exec.{◌>>=◌, >>=-eq-ok}
use riteraft_ng.HashMap
use riteraft_ng.HashMap.{get-insert, get-remove}
use riteraft_ng.Peers.{u64}
use riteraft_ng.Node.Messages.{ResponseSender}
use riteraft_ng.Node.State.{Env, RaftNodeCore, Reply}
use riteraft_ng.Node.Loop.{Event, Running, run}
use riteraft_ng.Node.Moves.{Budget, IsAddressed, anything}
use riteraft_ng.Node.Moves.Turn.{turn-core}
use riteraft_ng.Node.Invariants.{IsPending, IsPending-weaken, Keeps-Budget}

module _ {F S R : Type 0} where
  -- One of the answers goes to the one who waits.
  abbrev pub HasAnswer : ResponseSender → List (Reply F S R) → Type 0
  HasAnswer x [] = ⊥
  HasAnswer x (r ∷ rs) = IsAddressed x r ⊎ HasAnswer x rs

  HasAnswer-left :
      (x : ResponseSender) (rs qs : List (Reply F S R)) → HasAnswer x rs → HasAnswer x (rs ++ qs)
  HasAnswer-left x [] qs h = absurd h
  HasAnswer-left x (r ∷ rs) qs (inl a) = inl a
  HasAnswer-left x (r ∷ rs) qs (inr h) = inr (HasAnswer-left x rs qs h)

  HasAnswer-right :
      (x : ResponseSender) (rs qs : List (Reply F S R)) → HasAnswer x qs → HasAnswer x (rs ++ qs)
  HasAnswer-right x [] qs h = h
  HasAnswer-right x (r ∷ rs) qs h = inr (HasAnswer-right x rs qs h)

  -- Every request that waits in `s` waits in `t` too, under its number, or was answered in between.
  pub record Remembers (s t : RaftNodeCore F S R) : Type 0 where
    pub new : List (Reply F S R)
    pub replies : t.replies ≡ s.replies ++ new
    pub waits :
        (k : ℕ) (x : ResponseSender)
        → HashMap.get k s.response_senders ≡ some x
        → (HashMap.get k t.response_senders ≡ some x) ⊎ HasAnswer x new

  unchanged :
      (s t : RaftNodeCore F S R)
      → t.replies ≡ s.replies
      → t.response_senders ≡ s.response_senders
      → Remembers s t
  unchanged s t e f = record {
    new = [];
    replies = e ∙ sym (append_nil s.replies);
    waits = λ k x g. inl (rw f g);
  }

  Remembers-trans : (s t u : RaftNodeCore F S R) → Remembers s t → Remembers t u → Remembers s u
  Remembers-trans s t u h k = record {
    new = h.new ++ k.new;
    replies = k.replies ∙ ap (λ rs. rs ++ k.new) h.replies ∙ append_assoc s.replies h.new k.new;
    waits = λ j x g. elim (h.waits j x g) [
      | inl w ↦ elim (k.waits j x w) [
        | inl v ↦ inl v
        | inr a ↦ inr (HasAnswer-right x h.new k.new a)
      ]
      | inr a ↦ inr (HasAnswer-left x h.new k.new a)
    ];
  }

  -- What a handler does that gives out no number, and what it does with one.
  abbrev Stays : RaftNodeCore F S R → Bool → RaftNodeCore F S R → Type 0
  Stays s o t = (n : ℕ) → IsPending n s → IsPending n t × (o ≡ true → Remembers s t)

  abbrev StaysOneMore : RaftNodeCore F S R → Bool → RaftNodeCore F S R → Type 0
  StaysOneMore s o t =
      (n : ℕ) → n + 1 < u64 → IsPending n s → IsPending (n + 1) t × (o ≡ true → Remembers s t)

  nobody-Stays :
      (s : RaftNodeCore F S R) (k : ℕ)
      → HashMap.get k s.response_senders ≡ none
      → Stays s true (record s { response_senders = HashMap.remove k s.response_senders })
  nobody-Stays s k e n h = (
    Keeps-Budget.basic.nobody s k e n h,
    λ _. record {
      new = [];
      replies = sym (append_nil s.replies);
      waits = λ j x g. inl (ground (arith, g, e, get-remove j k s.response_senders h.unique));
    },
  )

  answer-Stays :
      (s : RaftNodeCore F S R) (k : ℕ) (x : ResponseSender) (r : Reply F S R)
      → HashMap.get k s.response_senders ≡ some x
      → IsAddressed x r
      → Stays s true (record s {
        response_senders = HashMap.remove k s.response_senders;
        replies = s.replies ++ r ∷ [];
      })
  answer-Stays s k x r e a n h = (
    Keeps-Budget.basic.answer s k x r e a n h,
    λ _. record {
      new = r ∷ [];
      replies = refl;
      waits = λ j y g. elim (Bool-cases (k == j)) [
        | inl same ↦
            let one : x ≡ y = ground (arith, same, g, e) in
            inr (inl (subst (λ z. IsAddressed z r) one a))
        | inr other ↦ inl (ground (arith, other, g, get-remove j k s.response_senders h.unique))
      ];
    },
  )

  keep-StaysOneMore :
      (s : RaftNodeCore F S R) (x : ResponseSender)
      → StaysOneMore s true (record s {
        response_seq = (s.response_seq + 1) % u64;
        response_senders = HashMap.insert s.response_seq x s.response_senders;
      })
  keep-StaysOneMore s x n b h = (
    Keeps-Budget.keep s x n b h,
    λ _. record {
      new = [];
      replies = sym (append_nil s.replies);
      waits = λ j y g.
          inl (ground (arith, g, h.below j y g, get-insert j s.response_seq x s.response_senders));
    },
  )

  Stays-Budget : Budget (λ _ _. Unit) Stays StaysOneMore
  Stays-Budget = record {
    basic = record {
      same = λ s o n h. (h, λ _. unchanged s s refl refl);
      trans = λ s t u o p q n h.
          let (h1, f) = p n h in
          let (h2, g) = q n h1 in (h2, λ e. Remembers-trans s t u (f refl) (g e));
      world =
          λ s r d p o n h. (Keeps-Budget.basic.world s r d p o n h, λ _. unchanged s _ refl refl);
      machine =
          λ s f o a n h. (Keeps-Budget.basic.machine s f o a n h, λ _. unchanged s _ refl refl);
      clock = λ s m k n h. (Keeps-Budget.basic.clock s m k n h, λ _. unchanged s _ refl refl);
      exit = λ s n h. (Keeps-Budget.basic.exit s n h, λ _. unchanged s _ refl refl);
      reply = λ s r n h. (
        Keeps-Budget.basic.reply s r n h,
        λ _. record { new = r ∷ []; replies = refl; waits = λ k x g. inl g },
      );
      spawn = λ s ms n h. (Keeps-Budget.basic.spawn s ms n h, λ _. unchanged s _ refl refl);
      nobody = nobody-Stays;
      answer = answer-Stays;
      lost = λ s k n h. (Keeps-Budget.basic.lost s k n h, λ e. cc e);
    };
    weaken =
        λ s t o p n b h. let (h1, f) = p n h in (IsPending-weaken n (n + 1) t (ground arith) h1, f);
    before = λ s t u o p q n b h.
        let (h1, f) = p n h in
        let (h2, g) = q n b h1 in (h2, λ e. Remembers-trans s t u (f refl) (g e));
    after = λ s t u o p q n b h.
        let (h1, f) = p n b h in
        let (h2, g) = q (n + 1) h1 in (h2, λ e. Remembers-trans s t u (f refl) (g e));
    keep = keep-StaysOneMore;
  }

  module _ (env : Env F S R) where
    if_ok :
        (c b : Bool) (s t : Running F S R) (y : Outcome Bool × Running F S R)
        → (if c then (ok true, s) else y) ≡ (ok b, t)
        → (s ≡ t) ⊎ (y ≡ (ok b, t))
    if_ok true b s t y h = inl (ap (λ p. p.1) h)
    if_ok false b s t y h = inr h

    -- In every run of the loop that no error ends, on so few events that the counter of responses
    -- does not overflow, from a state in which the numbers of the waiting requests are distinct and
    -- below the counter: each request that waits at the start still waits at the end, under its
    -- number, or an answer was sent to it in between.
    pub run-Remembers :
        (es : List (Event × ℕ)) (s t : Running F S R) (n : ℕ) (b : Bool)
        → n + length es < u64
        → IsPending n s.core
        → run env es s ≡ (ok b, t)
        → Remembers s.core t.core
    unfolding run
    run-Remembers [] s t n b l h e =
        let same : t.core ≡ s.core = sym (ap (λ p. p.1.core) e) in
        unchanged s.core t.core (ap (λ c. c.replies) same) (ap (λ c. c.response_senders) same)
    run-Remembers ((e, d) ∷ es) s t n b l h f = elim (if_ok s.core.should_exit b s t _ f) [
      | inl same ↦
          unchanged s.core t.core (ap (λ c. c.core.replies) (sym same))
            (ap (λ c. c.core.response_senders) (sym same))
      | inr g ↦
          let (_, u, k, q) = >>=-eq-ok _ _ s g in
          let stays = turn-core Stays-Budget env (anything env.fsm) e d s n (ground arith) h in
          let (h1, r) =
            subst (λ p. IsPending (n + 1) p.1.core × (is_ok p.0 ≡ true → Remembers s.core p.1.core))
              k stays in
          Remembers-trans s.core u.core t.core (r refl)
            (run-Remembers es u t (n + 1) b (ground arith) h1 q)
    ]
