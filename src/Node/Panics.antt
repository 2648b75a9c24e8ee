-- ===== src/Node/Panics.antt =====
-- raftify/src/raft_node/mod.rs: the commits that stop the node.
mod Examples
use riteraft_ng.Prelude.{
  ℕ, ◌≡◌, ◌⊎◌, Bool, true, false, ◌&&◌, not, some, List, arith, Bool-cases, is_empty, all,
}
use riteraft_ng.Outcome.{ok, panic}
use riteraft_ng.Exec.{◌>>=◌}
use riteraft_ng.HashMap
use riteraft_ng.Net.{SocketAddr}
use riteraft_ng.Proto.{ConfChangeV2, Entry}
use riteraft_ng.Node.Messages.{ResponseSender, local, server}
use riteraft_ng.Node.State.{Env, RaftNodeCore}
use riteraft_ng.Node.Commit.{
  apply_change, apply_members, decode_change, handle_committed_config_change_entry, is_remove,
  change_members, change_response, take_sender,
}
use riteraft_ng.Node.Answers.{channel}
use riteraft_ng.Node.Members.{joins}

-- The change both adds and removes members.
abbrev pub mixed : ConfChangeV2 → Bool
mixed v = not (joins v.changes) && not (all is_remove v.changes)

module _ {F S R : Type 0} (env : Env F S R) where
  -- A committed change of the membership for which a request waits stops the node with a panic, after
  -- the change was made, where it both adds and removes members, or where the one who waits has gone:
  -- its receiver was dropped.
  pub committed_change-panics :
      (e : Entry) (v : ConfChangeV2) (addrs : List SocketAddr) (seq : ℕ) (x : ResponseSender)
      (s t u : RaftNodeCore F S R)
      → decode_change env e ≡ ok v
      → is_empty e.context ≡ false
      → env.addrs.decode v.context ≡ some addrs
      → apply_members env addrs 0 v.changes s ≡ (ok tt, t)
      → apply_change env v e t ≡ (ok tt, u)
      → env.seq.decode e.context ≡ some seq
      → HashMap.get seq u.response_senders ≡ some x
      → (mixed v ≡ true) ⊎ (u.receivers (channel x) ≡ false)
      → (handle_committed_config_change_entry env e s).0 ≡ panic
  unfolding handle_committed_config_change_entry change_members change_response take_sender ◌>>=◌
  committed_change-panics e v addrs seq (local tx) s t u dec ctx ad am ac ds g why =
      rw (dec, ctx, ad, am, ac, ds, g)
        (ground (arith, why, Bool-cases (joins v.changes), Bool-cases (all is_remove v.changes)))
  committed_change-panics e v addrs seq (server tx) s t u dec ctx ad am ac ds g why =
      rw (dec, ctx, ad, am, ac, ds, g)
        (ground (arith, why, Bool-cases (joins v.changes), Bool-cases (all is_remove v.changes)))
