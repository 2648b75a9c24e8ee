-- ===== src/Node/Moves.antt =====
-- raftify/src/raft_node/mod.rs: what every handler respects, from what the basic changes of the
-- state respect. `Rel s o t` is about the states before and after, and `o` says that the handler ended
-- without an error. `R0` is a relation that all changes but the keeping of a response sender respect,
-- and `R1` one for a request that may keep one.
pub mod Commit
pub mod Loop
pub mod Turn
pub mod Plain
use riteraft_ng.Prelude.{
  ℕ, ◌≡◌, none, some, ◌+◌, ◌-◌, ◌%◌, Bool, true, false, List, [], ◌∷◌, ◌++◌, if◌then◌else◌,
}
use riteraft_ng.Outcome.{Outcome, ok, err, panic, is_ok}
use riteraft_ng.Exec.{Exec, continue, when, ◌>>=◌, ◌>>◌}
use riteraft_ng.HashMap
use riteraft_ng.Peers.{Peers, u64}
use riteraft_ng.Proto.{Bytes, Message}
use riteraft_ng.Node.Messages.{ResponseSender, local, server, LocalResponseMsg, ServerResponseMsg}
use riteraft_ng.Node.State.{
  RaftNodeCore, Reply, StateMachine, to_local, to_server, post, send_local, send_server, on_store,
  on_fsm, on_raft, change_raft,
}

module _ {F : Type 0} where
  -- What the methods of a state machine may do to it.
  pub record Machine (m : StateMachine F) (May : F → F → Type 0) : Type 0 where
    pub apply : (d : Bytes) (f : F) → May f (m.apply d f).1
    pub snapshot : (f : F) → May f (m.snapshot f).1
    pub restore : (d : Bytes) (f : F) → May f (m.restore d f).1

  -- For a relation that does not look at the state machine.
  pub anything : (m : StateMachine F) → Machine m (λ _ _. Unit)
  anything m = record { apply = λ d f. tt; snapshot = λ f. tt; restore = λ d f. tt }

module _ {F S R : Type 0} where
  pub record Moves {A : Type 0} (Rel : RaftNodeCore F S R → Bool → RaftNodeCore F S R → Type 0)
      (m : Exec (RaftNodeCore F S R) A) : Type 0 where
    pub at : (s : RaftNodeCore F S R) → Rel s (is_ok (m s).0) (m s).1

  -- The answer goes to the one who waits.
  abbrev pub IsAddressed : ResponseSender → Reply F S R → Type 0
  IsAddressed (local tx) (to_local t m) = t ≡ tx
  IsAddressed (server tx) (to_server t m) = t ≡ tx
  IsAddressed _ _ = ⊥

  -- The basic changes. A sender is taken to be answered; where that fails, so does the handler.
  pub record Basic (May : F → F → Type 0)
      (Rel : RaftNodeCore F S R → Bool → RaftNodeCore F S R → Type 0) : Type 0 where
    pub same : (s : RaftNodeCore F S R) (o : Bool) → Rel s o s
    pub trans : (s t u : RaftNodeCore F S R) (o : Bool) → Rel s true t → Rel t o u → Rel s o u
    pub world :
        (s : RaftNodeCore F S R) (r : R) (d : S) (p : Peers) (o : Bool)
        → Rel s o (record s { raw_node = r; store = d; peers = p })
    pub machine :
        (s : RaftNodeCore F S R) (f : F) (o : Bool) → May s.fsm f → Rel s o (record s { fsm = f })
    pub clock :
        (s : RaftNodeCore F S R) (n m : ℕ)
        → Rel s true (record s { now = n; last_snapshot_created = m })
    pub exit : (s : RaftNodeCore F S R) → Rel s true (record s { should_exit = true })
    pub reply :
        (s : RaftNodeCore F S R) (r : Reply F S R)
        → Rel s true (record s { replies = s.replies ++ r ∷ [] })
    pub spawn :
        (s : RaftNodeCore F S R) (ms : List Message)
        → Rel s true (record s { spawned = s.spawned ++ ms })
    pub nobody :
        (s : RaftNodeCore F S R) (k : ℕ)
        → HashMap.get k s.response_senders ≡ none
        → Rel s true (record s { response_senders = HashMap.remove k s.response_senders })
    pub answer :
        (s : RaftNodeCore F S R) (k : ℕ) (x : ResponseSender) (r : Reply F S R)
        → HashMap.get k s.response_senders ≡ some x
        → IsAddressed x r
        → Rel s true (record s {
          response_senders = HashMap.remove k s.response_senders;
          replies = s.replies ++ r ∷ [];
        })
    pub lost :
        (s : RaftNodeCore F S R) (k : ℕ)
        → Rel s false (record s { response_senders = HashMap.remove k s.response_senders })

  module _ {Rel : RaftNodeCore F S R → Bool → RaftNodeCore F S R → Type 0} where
    pub if-Moves :
        {A : Type 0} (c : RaftNodeCore F S R → Bool) (m n : Exec (RaftNodeCore F S R) A)
        → Moves Rel m
        → Moves Rel n
        → Moves Rel (λ s. if c s then m s else n s)
    if-Moves c m n hm hn = record { at = λ s. go s (c s) }
      where
        go :
            (s : RaftNodeCore F S R) (x : Bool)
            → Rel s (is_ok (if x then m s else n s).0) (if x then m s else n s).1
        go s true = hm.at s
        go s false = hn.at s

    pub choose-Moves :
        {A : Type 0} (c : Bool) (m n : Exec (RaftNodeCore F S R) A)
        → Moves Rel m
        → Moves Rel n
        → Moves Rel (if c then m else n)
    choose-Moves true m n hm hn = hm
    choose-Moves false m n hm hn = hn

  module _ {May : F → F → Type 0} {Rel : RaftNodeCore F S R → Bool → RaftNodeCore F S R → Type 0}
      (b : Basic May Rel) where
    pub continue-Moves :
        {A B : Type 0} (s : RaftNodeCore F S R) (r : Outcome A)
        (f : A → Exec (RaftNodeCore F S R) B) (t : RaftNodeCore F S R)
        → Rel s (is_ok r) t
        → ((a : A) → Moves Rel (f a))
        → Rel s (is_ok (continue r f t).0) (continue r f t).1
    continue-Moves s (ok a) f t h k = b.trans s t _ _ h ((k a).at t)
    continue-Moves s (err e) f t h k = h
    continue-Moves s panic f t h k = h

    pub bind-Moves :
        {A B : Type 0} (m : Exec (RaftNodeCore F S R) A) (f : A → Exec (RaftNodeCore F S R) B)
        → Moves Rel m
        → ((a : A) → Moves Rel (f a))
        → Moves Rel (m >>= f)
    unfolding ◌>>=◌
    bind-Moves m f hm hf = record { at = λ s. continue-Moves s (m s).0 f (m s).1 (hm.at s) hf }

    pub same-Moves : {A : Type 0} (f : RaftNodeCore F S R → Outcome A) → Moves Rel (λ s. (f s, s))
    same-Moves f = record { at = λ s. b.same s (is_ok (f s)) }

    pub on_store-Moves : {A : Type 0} (m : Exec S A) → Moves Rel (on_store m)
    on_store-Moves m = record { at = λ s. b.world s s.raw_node _ s.peers _ }

    pub on_fsm-Moves :
        {A : Type 0} (m : Exec F A) → ((f : F) → May f (m f).1) → Moves Rel (on_fsm m)
    on_fsm-Moves m h = record { at = λ s. b.machine s _ _ (h s.fsm) }

    pub on_raft-Moves : {A : Type 0} (m : S → Exec R A) → Moves Rel (on_raft m)
    on_raft-Moves m = record { at = λ s. b.world s _ s.store s.peers _ }

    pub change_raft-Moves : (f : S → R → R) → Moves Rel (change_raft f)
    change_raft-Moves f = record { at = λ s. b.world s _ s.store s.peers _ }

    post-Moves : (here : Bool) (r : Reply F S R) → Moves Rel (post here r)
    post-Moves true r = record { at = λ s. b.reply s r }
    post-Moves false r = record { at = λ s. b.same s false }

    pub send_local-Moves : (tx : ℕ) (m : LocalResponseMsg F S R) → Moves Rel (send_local tx m)
    send_local-Moves tx m = record { at = λ s. (post-Moves (s.receivers tx) _).at s }

    pub send_server-Moves : (tx : ℕ) (m : ServerResponseMsg) → Moves Rel (send_server tx m)
    send_server-Moves tx m = record { at = λ s. (post-Moves (s.receivers tx) _).at s }

    pub when-Moves :
        (c : Bool) {m : Exec (RaftNodeCore F S R) (Unit {0})} → Moves Rel m → Moves Rel (when c m)
    when-Moves true hm = hm
    when-Moves false hm = same-Moves _

  -- With what a request may do besides.
  pub record Budget (May : F → F → Type 0)
      (R0 R1 : RaftNodeCore F S R → Bool → RaftNodeCore F S R → Type 0) : Type 0 where
    pub basic : Basic May R0
    pub weaken : (s t : RaftNodeCore F S R) (o : Bool) → R0 s o t → R1 s o t
    pub before : (s t u : RaftNodeCore F S R) (o : Bool) → R0 s true t → R1 t o u → R1 s o u
    pub after : (s t u : RaftNodeCore F S R) (o : Bool) → R1 s true t → R0 t o u → R1 s o u
    pub keep :
        (s : RaftNodeCore F S R) (x : ResponseSender)
        → R1 s true (record s {
          response_seq = (s.response_seq + 1) % u64;
          response_senders = HashMap.insert s.response_seq x s.response_senders;
        })

  module _ {May : F → F → Type 0} {R0 R1 : RaftNodeCore F S R → Bool → RaftNodeCore F S R → Type 0}
      (g : Budget May R0 R1) where
    pub weaken-Moves : {A : Type 0} {m : Exec (RaftNodeCore F S R) A} → Moves R0 m → Moves R1 m
    weaken-Moves h = record { at = λ s. g.weaken s _ _ (h.at s) }

    continue-before :
        {A B : Type 0} (s t : RaftNodeCore F S R) (r : Outcome A)
        (f : A → Exec (RaftNodeCore F S R) B)
        → R0 s (is_ok r) t
        → ((a : A) → Moves R1 (f a))
        → R1 s (is_ok (continue r f t).0) (continue r f t).1
    continue-before s t (ok a) f h k = g.before s t _ _ h ((k a).at t)
    continue-before s t (err e) f h k = g.weaken s t false h
    continue-before s t panic f h k = g.weaken s t false h

    continue-after :
        {A B : Type 0} (s t : RaftNodeCore F S R) (r : Outcome A)
        (f : A → Exec (RaftNodeCore F S R) B)
        → R1 s (is_ok r) t
        → ((a : A) → Moves R0 (f a))
        → R1 s (is_ok (continue r f t).0) (continue r f t).1
    continue-after s t (ok a) f h k = g.after s t _ _ h ((k a).at t)
    continue-after s t (err e) f h k = h
    continue-after s t panic f h k = h

    pub before-Moves :
        {A B : Type 0} (m : Exec (RaftNodeCore F S R) A) (f : A → Exec (RaftNodeCore F S R) B)
        → Moves R0 m
        → ((a : A) → Moves R1 (f a))
        → Moves R1 (m >>= f)
    unfolding ◌>>=◌
    before-Moves m f hm hf = record { at = λ s. continue-before s (m s).1 (m s).0 f (hm.at s) hf }

    pub after-Moves :
        {A B : Type 0} (m : Exec (RaftNodeCore F S R) A) (f : A → Exec (RaftNodeCore F S R) B)
        → Moves R1 m
        → ((a : A) → Moves R0 (f a))
        → Moves R1 (m >>= f)
    unfolding ◌>>=◌
    after-Moves m f hm hf = record { at = λ s. continue-after s (m s).1 (m s).0 f (hm.at s) hf }
