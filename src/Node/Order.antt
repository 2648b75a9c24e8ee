-- ===== src/Node/Order.antt =====
-- raftify/src/raft_node/mod.rs: the order in which a `Ready` is worked off.
use riteraft_ng.Prelude.{◌≡◌, true, ◌&&◌, some, List, [], ◌∷◌, ◌++◌, if◌then◌else◌, append_nil}
use riteraft_ng.Outcome.{Outcome, ok, err, panic, is_ok, ◌>>=◌ as bind}
use riteraft_ng.Exec.{◌>>=◌}
use riteraft_ng.Proto.{Entry, HardState}
use riteraft_ng.Node.State.{Env, RaftNodeCore, Ready}
use riteraft_ng.Node.Commit.{handle_committed_entries}
use riteraft_ng.Node.Loop.{handle_ready}

module _ {F S R : Type 0} (env : Env F S R) where
  -- Of a `Ready` with entries and a hard state, and without a snapshot or committed entries, the
  -- messages that wait for the disk go out only after the entries and the hard state were stored:
  -- where either fails, only the first messages went out and the failure is returned.
  pub handle_ready-order :
      (x : Ready) (e : Entry) (es : List Entry) (h : HardState) (s : RaftNodeCore F S R)
      (r1 r2 : Outcome Unit) (d1 d2 : S)
      → env.raft.is_default x.snapshot ≡ true
      → x.committed_entries ≡ []
      → x.entries ≡ e ∷ es
      → x.hs ≡ some h
      → env.storage.append (e ∷ es) s.store ≡ (r1, d1)
      → env.storage.set_hard_state h d1 ≡ (r2, d2)
      → handle_ready env x s ≡ (
        bind r1 (λ _. r2),
        record s {
          store = if is_ok r1 then d2 else d1;
          spawned =
              (s.spawned ++ x.messages)
              ++ (if is_ok r1 && is_ok r2 then x.persisted_messages else []);
        },
      )
  unfolding handle_ready handle_committed_entries ◌>>=◌
  handle_ready-order x e es h s (ok _) (ok _) d1 d2 i c n hs a p = rw (i, c, n, hs, a, p)
  handle_ready-order x e es h s (ok _) (err _) d1 d2 i c n hs a p =
      rw (i, c, n, hs, a, p) (rw (append_nil (s.spawned ++ x.messages)))
  handle_ready-order x e es h s (ok _) panic d1 d2 i c n hs a p =
      rw (i, c, n, hs, a, p) (rw (append_nil (s.spawned ++ x.messages)))
  handle_ready-order x e es h s (err _) r2 d1 d2 i c n hs a p =
      rw (i, c, n, a) (rw (append_nil (s.spawned ++ x.messages)))
  handle_ready-order x e es h s panic r2 d1 d2 i c n hs a p =
      rw (i, c, n, a) (rw (append_nil (s.spawned ++ x.messages)))
