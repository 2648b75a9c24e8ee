-- ===== src/Node/Moves/Plain.antt =====
-- raftify/src/raft_node/mod.rs: relations that do not depend on how a handler ends.
use riteraft_ng.Prelude.{ℕ, true, List, [], ◌∷◌, ◌++◌}
use riteraft_ng.HashMap
use riteraft_ng.Peers.{Peers}
use riteraft_ng.Proto.{Message}
use riteraft_ng.Node.State.{RaftNodeCore, Reply}
use riteraft_ng.Node.Moves.{Basic}

module _ {F S R : Type 0} where
  -- A relation that does not depend on how the handler ends.
  pub record Plain (Rel : RaftNodeCore F S R → RaftNodeCore F S R → Type 0) : Type 0 where
    pub same : (s : RaftNodeCore F S R) → Rel s s
    pub trans : (s t u : RaftNodeCore F S R) → Rel s t → Rel t u → Rel s u
    pub world :
        (s : RaftNodeCore F S R) (r : R) (d : S) (f : F) (p : Peers)
        → Rel s (record s { raw_node = r; store = d; fsm = f; peers = p })
    pub clock :
        (s : RaftNodeCore F S R) (n m : ℕ) → Rel s (record s { now = n; last_snapshot_created = m })
    pub exit : (s : RaftNodeCore F S R) → Rel s (record s { should_exit = true })
    pub reply :
        (s : RaftNodeCore F S R) (r : Reply F S R)
        → Rel s (record s { replies = s.replies ++ r ∷ [] })
    pub spawn :
        (s : RaftNodeCore F S R) (ms : List Message)
        → Rel s (record s { spawned = s.spawned ++ ms })
    pub take :
        (s : RaftNodeCore F S R) (k : ℕ)
        → Rel s (record s { response_senders = HashMap.remove k s.response_senders })

  pub Plain-Basic :
      (Rel : RaftNodeCore F S R → RaftNodeCore F S R → Type 0)
      → Plain Rel
      → Basic (λ _ _. Unit) (λ s o t. Rel s t)
  Plain-Basic Rel p = record {
    same = λ s o. p.same s;
    trans = λ s t u o. p.trans s t u;
    world = λ s r d q o. p.world s r d s.fsm q;
    machine = λ s f o _. p.world s s.raw_node s.store f s.peers;
    clock = p.clock;
    exit = p.exit;
    reply = p.reply;
    spawn = p.spawn;
    nobody = λ s k e. p.take s k;
    answer = λ s k x r e a. p.trans s _ _ (p.take s k) (p.reply _ r);
    lost = p.take;
  }
