-- ===== src/Node/Leaving.antt =====
-- raftify/src/raft_node/mod.rs: committed changes that remove members.
mod Examples
use riteraft_ng.Prelude.{
  ℕ, ◌≡◌, refl, Option, Bool, true, false, ◌||◌, some, List, [], ◌∷◌, ◌+◌, ◌++◌, arith, ◌==◌,
  if◌then◌else◌, Bool-cases, is_empty, all, get_elem?,
}
use riteraft_ng.Outcome.{ok}
use riteraft_ng.Exec.{◌>>=◌}
use riteraft_ng.HashMap
use riteraft_ng.HashMap.{HashMap}
use riteraft_ng.Net.{SocketAddr}
use riteraft_ng.Peers
use riteraft_ng.Peers.{Peer}
use riteraft_ng.Proto.{
  ConfChangeSingle, ConfChangeType, add_node, remove_node, add_learner_node, ConfChangeV2,
  ConfState, Entry, Bytes,
}
use riteraft_ng.Node.Messages.{ResponseSender, local, server, remove_success}
use riteraft_ng.Node.State.{Env, RaftNodeCore, get_id}
use riteraft_ng.Node.Commit.{
  apply_members, change_member, change_members, change_response, decode_change,
  handle_committed_config_change_entry, is_remove, is_remove_node, make_snapshot, take_sender,
}
use riteraft_ng.Node.Answers.{channel, config_change_reply}
use riteraft_ng.Node.Members.{joins}

-- The peers without those that leave; a node does not take itself out of its peers.
abbrev pub left : ℕ → List ConfChangeSingle → HashMap Peer → HashMap Peer
left own [] m = m
left own (c ∷ cs) m = left own cs (if c.node_id == own then m else HashMap.remove c.node_id m)

-- The node is among those that leave.
abbrev pub names : ℕ → List ConfChangeSingle → Bool
names own [] = false
names own (c ∷ cs) = (c.node_id == own) || names own cs

module _ {F S R : Type 0} (env : Env F S R) where
  abbrev pub without : List ConfChangeSingle → RaftNodeCore F S R → RaftNodeCore F S R
  without cs s = record s {
    should_exit = names (get_id env s) cs || s.should_exit;
    peers = record s.peers { inner = left (get_id env s) cs s.peers.inner };
  }

  change_member-left :
      (t : ConfChangeType) (id : ℕ) (a : Option SocketAddr) (s : RaftNodeCore F S R)
      → is_remove_node t ≡ true
      → change_member env t id a s
        ≡ (ok tt, without (record { change_type = t; node_id = id } ∷ []) s)
  unfolding Peers.remove
  change_member-left remove_node id a s h = ground (arith, Bool-cases (id == get_id env s))
  change_member-left add_node id a s h = cc
  change_member-left add_learner_node id a s h = cc

  without-∷ :
      (c : ConfChangeSingle) (cs : List ConfChangeSingle) (s : RaftNodeCore F S R)
      → without cs (without (c ∷ []) s) ≡ without (c ∷ cs) s
  without-∷ c cs s =
      ground (arith, Bool-cases (c.node_id == get_id env s), Bool-cases (names (get_id env s) cs))

  apply_members-left :
      (cs : List ConfChangeSingle) (addrs : List SocketAddr) (i : ℕ) (s : RaftNodeCore F S R)
      → all is_remove cs ≡ true
      → apply_members env addrs i cs s ≡ (ok tt, without cs s)
  unfolding apply_members ◌>>=◌
  apply_members-left [] addrs i s h = refl
  apply_members-left (c ∷ cs) addrs i s h =
      let one =
        change_member-left c.change_type c.node_id (get_elem? addrs i) s (ground (arith, h)) in
      let rest = apply_members-left cs addrs (i + 1) (without (c ∷ []) s) (ground (arith, h)) in
      rw (one, rest, without-∷ c cs s) refl

  -- When a change that only removes members, one at least, is committed, and raft-rs, the store and
  -- the state machine take it: the members that leave are no longer peers of the node, but for the
  -- node itself, which exits where it is one of them; the new configuration and a snapshot are
  -- stored, and the request that waits for it is answered with the success of the removal, also by
  -- a node that exits, and waits no longer.
  pub committed_removal-answers :
      (e : Entry) (v : ConfChangeV2) (addrs : List SocketAddr) (seq : ℕ) (x : ResponseSender)
      (s : RaftNodeCore F S R) (r : R) (c : ConfState) (d1 d2 d3 : S) (bytes : Bytes) (f : F)
      → decode_change env e ≡ ok v
      → is_empty e.context ≡ false
      → env.addrs.decode v.context ≡ some addrs
      → joins v.changes ≡ false
      → all is_remove v.changes ≡ true
      → env.raft.apply_conf_change v s.store s.raw_node ≡ (ok c, r)
      → env.storage.set_conf_state c s.store ≡ (ok tt, d1)
      → env.fsm.snapshot s.fsm ≡ (ok bytes, f)
      → env.storage.compact (env.raft.applied r) d1 ≡ (ok tt, d2)
      → env.storage.create_snapshot bytes e.index e.term d2 ≡ (ok tt, d3)
      → env.seq.decode e.context ≡ some seq
      → HashMap.get seq s.response_senders ≡ some x
      → s.receivers (channel x) ≡ true
      → handle_committed_config_change_entry env e s ≡ (
        ok tt,
        record s {
          raw_node = r;
          store = d3;
          fsm = f;
          should_exit = names (get_id env s) v.changes || s.should_exit;
          peers = record s.peers { inner = left (get_id env s) v.changes s.peers.inner };
          last_snapshot_created = s.now;
          response_senders = HashMap.remove seq s.response_senders;
          replies = s.replies ++ config_change_reply x remove_success ∷ [];
        },
      )
  unfolding handle_committed_config_change_entry change_members change_response make_snapshot
      take_sender ◌>>=◌
  committed_removal-answers e v addrs seq (local tx) s r c d1 d2 d3 bytes f dec ctx ad j a rc sc sn
        co cr ds g rec =
      rw (
        dec,
        ctx,
        ad,
        apply_members-left v.changes addrs 0 s a,
        rc,
        sc,
        sn,
        co,
        cr,
        ds,
        g,
        j,
        a,
        rec,
      )
  committed_removal-answers e v addrs seq (server tx) s r c d1 d2 d3 bytes f dec ctx ad j a rc sc sn
        co cr ds g rec =
      rw (
        dec,
        ctx,
        ad,
        apply_members-left v.changes addrs 0 s a,
        rc,
        sc,
        sn,
        co,
        cr,
        ds,
        g,
        j,
        a,
        rec,
      )
