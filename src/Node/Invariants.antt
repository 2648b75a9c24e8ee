-- ===== src/Node/Invariants.antt =====
-- raftify/src/raft_node/mod.rs: what holds of every run of the loop, whatever the store, raft-rs, the
-- state machine and the network do.
use riteraft_ng.Prelude.{
  ℕ, suc, ◌+◌, ◌%◌, ◌≤◌, ◌<◌, ◌≡◌, refl, ◌∙◌, Bool, true, false, some, List, [], ◌∷◌, arith,
  if◌then◌else◌, length, Extends, Extends-refl, Extends-trans, Extends-append,
}
use riteraft_ng.Outcome.{Outcome, ok, err, panic}
use riteraft_ng.Exec.{Exec, continue, ◌>>=◌}
use riteraft_ng.HashMap
use riteraft_ng.HashMap.{IsUnique, get-insert, get-remove, insert-IsUnique, remove-IsUnique}
use riteraft_ng.Peers.{u64}
use riteraft_ng.Node.Messages.{ResponseSender}
use riteraft_ng.Node.State.{Env, RaftNodeCore}
use riteraft_ng.Node.Loop.{Event, Running, run, turn}
use riteraft_ng.Node.Moves.{Budget, anything}
use riteraft_ng.Node.Moves.Plain.{Plain, Plain-Basic}
use riteraft_ng.Node.Moves.Turn.{turn-core}

module _ {F S R : Type 0} where
  -- `t` is a later state of the node than `s`: the configuration and the address stay, and so does
  -- a decision to exit; what was sent stays sent.
  pub record Evolves (s t : RaftNodeCore F S R) : Type 0 where
    pub config : t.config ≡ s.config
    pub raft_addr : t.raft_addr ≡ s.raft_addr
    pub receivers : t.receivers ≡ s.receivers
    pub should_exit : s.should_exit ≡ true → t.should_exit ≡ true
    pub replies : Extends s.replies t.replies
    pub spawned : Extends s.spawned t.spawned

  Evolves-refl : (s : RaftNodeCore F S R) → Evolves s s
  Evolves-refl s = record {
    config = refl;
    raft_addr = refl;
    receivers = refl;
    should_exit = λ h. h;
    replies = Extends-refl s.replies;
    spawned = Extends-refl s.spawned;
  }

  Evolves-trans : (s t u : RaftNodeCore F S R) → Evolves s t → Evolves t u → Evolves s u
  Evolves-trans s t u h k = record {
    config = k.config ∙ h.config;
    raft_addr = k.raft_addr ∙ h.raft_addr;
    receivers = k.receivers ∙ h.receivers;
    should_exit = λ e. k.should_exit (h.should_exit e);
    replies = Extends-trans s.replies t.replies u.replies h.replies k.replies;
    spawned = Extends-trans s.spawned t.spawned u.spawned h.spawned k.spawned;
  }

  evolves :
      (s t : RaftNodeCore F S R)
      → t.config ≡ s.config
      → t.raft_addr ≡ s.raft_addr
      → t.receivers ≡ s.receivers
      → (s.should_exit ≡ true → t.should_exit ≡ true)
      → Extends s.replies t.replies
      → Extends s.spawned t.spawned
      → Evolves s t
  evolves s t c a r e p m = record {
    config = c;
    raft_addr = a;
    receivers = r;
    should_exit = e;
    replies = p;
    spawned = m;
  }

  Evolves-Plain : Plain Evolves
  Evolves-Plain = record {
    same = Evolves-refl;
    trans = Evolves-trans;
    world = λ s r d f p.
        evolves s _ refl refl refl (λ h. h) (Extends-refl s.replies) (Extends-refl s.spawned);
    clock = λ s n m.
        evolves s _ refl refl refl (λ h. h) (Extends-refl s.replies) (Extends-refl s.spawned);
    exit = λ s.
        evolves s _ refl refl refl (λ h. refl) (Extends-refl s.replies) (Extends-refl s.spawned);
    reply = λ s r.
        evolves s _ refl refl refl (λ h. h) (Extends-append s.replies (r ∷ []))
          (Extends-refl s.spawned);
    spawn = λ s ms.
        evolves s _ refl refl refl (λ h. h) (Extends-refl s.replies) (Extends-append s.spawned ms);
    take = λ s k.
        evolves s _ refl refl refl (λ h. h) (Extends-refl s.replies) (Extends-refl s.spawned);
  }

  pub Evolves-Budget : Budget (λ _ _. Unit) (λ s o t. Evolves s t) (λ s o t. Evolves s t)
  Evolves-Budget = record {
    basic = Plain-Basic Evolves Evolves-Plain;
    weaken = λ s t o h. h;
    before = λ s t u o. Evolves-trans s t u;
    after = λ s t u o. Evolves-trans s t u;
    keep = λ s x.
        evolves s _ refl refl refl (λ h. h) (Extends-refl s.replies) (Extends-refl s.spawned);
  }

  -- The rest of a run after a step of it, or none.
  pub continue-run :
      {B : Type 0} (P : Running F S R → Type 0) (r : Outcome (Unit {0}))
      (f : Exec (Running F S R) B) (t : Running F S R)
      → P t
      → ((u : Running F S R) → P u → P (f u).1)
      → P (continue r (λ _. f) t).1
  continue-run P (ok x) f t h k = k t h
  continue-run P (err x) f t h k = h
  continue-run P panic f t h k = h

  pub if-both :
      {B : Type 0} (P : Running F S R → Type 0) (c : Bool) (x y : Outcome B × Running F S R)
      → P x.1
      → P y.1
      → P (if c then x else y).1
  if-both P true x y h k = h
  if-both P false x y h k = k

  module _ (env : Env F S R) where
    -- In every run of the loop, whatever the store, raft-rs, the state machine and the network do
    -- and however it ends, the configuration and the node's address stay, a decision to exit is
    -- never taken back, and the answers and the messages that were sent are only added to.
    pub run-Evolves :
        (es : List (Event × ℕ)) (s : Running F S R) → Evolves s.core (run env es s).1.core
    unfolding run ◌>>=◌
    run-Evolves [] s = Evolves-refl s.core
    run-Evolves ((e, d) ∷ es) s =
        let (r, t) = turn env e d s in
        if-both (λ u. Evolves s.core u.core) s.core.should_exit (ok true, s) _ (Evolves-refl s.core)
          (continue-run (λ u. Evolves s.core u.core) r (run env es) t
            (turn-core Evolves-Budget env (anything env.fsm) e d s)
            (λ u h. Evolves-trans s.core u.core _ h (run-Evolves es u)))

  -- The numbers of the waiting requests are distinct, lie below the counter, which is at most `n`.
  pub record IsPending (n : ℕ) (s : RaftNodeCore F S R) : Type 0 where
    pub unique : IsUnique s.response_senders
    pub below :
        (k : ℕ) (x : ResponseSender)
        → HashMap.get k s.response_senders ≡ some x
        → k < s.response_seq
    pub bound : s.response_seq ≤ n

  pub IsPending-weaken : (m n : ℕ) (s : RaftNodeCore F S R) → m ≤ n → IsPending m s → IsPending n s
  IsPending-weaken m n s le h = record { unique = h.unique; below = h.below; bound = ground arith }

  abbrev Keeps : RaftNodeCore F S R → RaftNodeCore F S R → Type 0
  Keeps s t = (n : ℕ) → IsPending n s → IsPending n t

  -- After one more request.
  abbrev KeepsOneMore : RaftNodeCore F S R → RaftNodeCore F S R → Type 0
  KeepsOneMore s t = (n : ℕ) → n + 1 < u64 → IsPending n s → IsPending (n + 1) t

  take-Keeps :
      (s : RaftNodeCore F S R) (k : ℕ)
      → Keeps s (record s { response_senders = HashMap.remove k s.response_senders })
  take-Keeps s k n h = record {
    unique = remove-IsUnique k s.response_senders h.unique;
    below = λ j x e. ground (arith, get-remove j k s.response_senders h.unique, h.below j x);
    bound = h.bound;
  }

  keep-KeepsOneMore :
      (s : RaftNodeCore F S R) (x : ResponseSender)
      → KeepsOneMore s (record s {
        response_seq = (s.response_seq + 1) % u64;
        response_senders = HashMap.insert s.response_seq x s.response_senders;
      })
  keep-KeepsOneMore s x n b h =
      let small : (s.response_seq + 1) % u64 ≡ s.response_seq + 1 = ground (arith, h.bound) in
      record {
        unique = insert-IsUnique s.response_seq x s.response_senders h.unique;
        below = λ j y e.
            ground (arith, small, get-insert j s.response_seq x s.response_senders, h.below j y);
        bound = ground (arith, small, h.bound);
      }

  pub Keeps-Budget : Budget (λ _ _. Unit) (λ s o t. Keeps s t) (λ s o t. KeepsOneMore s t)
  Keeps-Budget = record {
    basic = Plain-Basic Keeps (record {
      same = λ s n h. h;
      trans = λ s t u h k n x. k n (h n x);
      world = λ s r d f p n h. record { unique = h.unique; below = h.below; bound = h.bound };
      clock = λ s m k n h. record { unique = h.unique; below = h.below; bound = h.bound };
      exit = λ s n h. record { unique = h.unique; below = h.below; bound = h.bound };
      reply = λ s r n h. record { unique = h.unique; below = h.below; bound = h.bound };
      spawn = λ s ms n h. record { unique = h.unique; below = h.below; bound = h.bound };
      take = take-Keeps;
    });
    weaken = λ s t o h n b x. IsPending-weaken n (n + 1) t (ground arith) (h n x);
    before = λ s t u o h k n b x. k n b (h n x);
    after = λ s t u o h k n b x. k (n + 1) (h n b x);
    keep = keep-KeepsOneMore;
  }

  continue-IsPending :
      (r : Outcome Unit) (f : Exec (Running F S R) Bool) (t : Running F S R) (m n : ℕ)
      → m ≤ n
      → IsPending m t.core
      → (IsPending m t.core → IsPending n (f t).1.core)
      → IsPending n (continue r (λ _. f) t).1.core
  continue-IsPending (ok x) f t m n le h k = k h
  continue-IsPending (err x) f t m n le h k = IsPending-weaken m n t.core le h
  continue-IsPending panic f t m n le h k = IsPending-weaken m n t.core le h

  module _ (env : Env F S R) where
    -- Where the numbers of the waiting requests are distinct, below the counter of responses, and
    -- the counter is at most `n`, they are so after every run of the loop on so few events that
    -- `n` and their number stay below 2^64, with the counter at most their sum: at most one number
    -- is given out per event, and never one that waits.
    pub run-IsPending :
        (es : List (Event × ℕ)) (s : Running F S R) (n : ℕ)
        → n + length es < u64
        → IsPending n s.core
        → IsPending (n + length es) (run env es s).1.core
    unfolding run ◌>>=◌
    run-IsPending [] s n b h = IsPending-weaken n (n + 0) s.core (ground arith) h
    run-IsPending ((e, d) ∷ es) s n b h =
        let (r, t) = turn env e d s in
        if-both (λ u. IsPending (n + suc (length es)) u.core) s.core.should_exit (ok true, s) _
          (IsPending-weaken n (n + suc (length es)) s.core (ground arith) h)
          (continue-IsPending r (run env es) t (n + 1) (n + suc (length es)) (ground arith)
            (turn-core Keeps-Budget env (anything env.fsm) e d s n (ground arith) h)
            (λ k.
              IsPending-weaken (n + 1 + length es) (n + suc (length es)) _ (ground arith)
                (run-IsPending es t (n + 1) (ground arith) k)))
