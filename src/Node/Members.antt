-- ===== src/Node/Members.antt =====
-- raftify/src/raft_node/mod.rs: a committed change of the membership.
use riteraft_ng.Prelude.{
  ℕ, ◌≡◌, refl, Bool, true, false, not, Option, some, List, [], ◌∷◌, ◌++◌, map, arith, length,
  get_elem?, is_empty, all, length-append, append_assoc,
}
use riteraft_ng.Outcome.{ok}
use riteraft_ng.Exec.{◌>>=◌}
use riteraft_ng.HashMap
use riteraft_ng.HashMap.{HashMap}
use riteraft_ng.Net.{SocketAddr}
use riteraft_ng.Peers
use riteraft_ng.Peers.{Peer, Peers, InitialRole, TlsConfig, voter, learner, peer_at}
use riteraft_ng.Proto.{
  Bytes, ConfChangeSingle, ConfChangeType, add_node, remove_node, add_learner_node, ConfChangeV2,
  ConfState, Entry,
}
use riteraft_ng.Node.Messages.{ResponseSender, local, server, join_success}
use riteraft_ng.Node.State.{Env, RaftNodeCore}
use riteraft_ng.Node.Commit.{
  apply_members, decode_change, handle_committed_config_change_entry, is_remove, is_remove_node,
  change_member, change_members, change_response, make_snapshot, take_sender,
}
use riteraft_ng.Node.Answers.{channel, config_change_reply}

abbrev role_of : ConfChangeType → InitialRole
role_of add_learner_node = learner
role_of _ = voter

-- The peers with the new members, in order, each at its address and unconnected.
abbrev pub entered :
    Option TlsConfig → List ConfChangeSingle → List SocketAddr → HashMap Peer → HashMap Peer
entered tls [] addrs m = m
entered tls (c ∷ cs) [] m = m
entered tls (c ∷ cs) (a ∷ addrs) m =
    entered tls cs addrs (HashMap.insert c.node_id (peer_at a (role_of c.change_type) tls) m)

abbrev pub joins : List ConfChangeSingle → Bool
joins = all (λ c. not (is_remove c))

get_elem?-append :
    (pre : List SocketAddr) (a : SocketAddr) (rest : List SocketAddr)
    → get_elem? (pre ++ a ∷ rest) (length pre) ≡ some a
get_elem?-append [] a rest = refl
get_elem?-append (x ∷ pre) a rest = get_elem?-append pre a rest

module _ {F S R : Type 0} (env : Env F S R) where
  change_member-entered :
      (t : ConfChangeType) (id : ℕ) (a : SocketAddr) (s : RaftNodeCore F S R)
      → is_remove_node t ≡ false
      → change_member env t id (some a) s ≡ (
        ok tt,
        record s {
          peers = record s.peers {
            inner =
                HashMap.insert id (peer_at a (role_of t) s.peers.client_tls_config) s.peers.inner;
          };
        },
      )
  unfolding Peers.add_peer Peers.new_peer
  change_member-entered add_node id a s h = rw (env.net.resolve-to_string a)
  change_member-entered add_learner_node id a s h = rw (env.net.resolve-to_string a)
  change_member-entered remove_node id a s h = cc

  apply_members-entered :
      (cs : List ConfChangeSingle) (pre addrs : List SocketAddr) (s : RaftNodeCore F S R)
      → joins cs ≡ true
      → length cs ≡ length addrs
      → apply_members env (pre ++ addrs) (length pre) cs s ≡ (
        ok tt,
        record s {
          peers = record s.peers {
            inner = entered s.peers.client_tls_config cs addrs s.peers.inner;
          };
        },
      )
  unfolding apply_members Peers.add_peer Peers.new_peer ◌>>=◌
  apply_members-entered [] pre addrs s j n = refl
  apply_members-entered (c ∷ cs) pre [] s j n = cc
  apply_members-entered (c ∷ cs) pre (a ∷ addrs) s j n =
      let one = change_member-entered c.change_type c.node_id a s (ground (arith, j)) in
      let rest =
        apply_members-entered cs (pre ++ a ∷ []) addrs
          (record s {
            peers = record s.peers {
              inner =
                  HashMap.insert c.node_id
                    (peer_at a (role_of c.change_type) s.peers.client_tls_config) s.peers.inner;
            };
          })
          (ground (arith, j)) (ground (arith, n)) in
      rw (get_elem?-append pre a addrs, one)
        (rw (append_assoc pre (a ∷ []) addrs, length-append pre (a ∷ [])) at rest)

  -- When a change that only adds members is committed, with an address for each, and raft-rs, the
  -- store and the state machine take it: the members are among the peers, the new configuration and
  -- a snapshot are stored, and the request that waits for it is answered with the identifiers and
  -- the peers, and waits no longer.
  pub committed_join-answers :
      (e : Entry) (v : ConfChangeV2) (addrs : List SocketAddr) (seq : ℕ) (x : ResponseSender)
      (s : RaftNodeCore F S R) (r : R) (c : ConfState) (d1 d2 d3 : S) (bytes : Bytes) (f : F)
      → decode_change env e ≡ ok v
      → is_empty e.context ≡ false
      → env.addrs.decode v.context ≡ some addrs
      → joins v.changes ≡ true
      → length v.changes ≡ length addrs
      → env.raft.apply_conf_change v s.store s.raw_node ≡ (ok c, r)
      → env.storage.set_conf_state c s.store ≡ (ok tt, d1)
      → env.fsm.snapshot s.fsm ≡ (ok bytes, f)
      → env.storage.compact (env.raft.applied r) d1 ≡ (ok tt, d2)
      → env.storage.create_snapshot bytes e.index e.term d2 ≡ (ok tt, d3)
      → env.seq.decode e.context ≡ some seq
      → HashMap.get seq s.response_senders ≡ some x
      → s.receivers (channel x) ≡ true
      → let peers = record s.peers {
        inner = entered s.peers.client_tls_config v.changes addrs s.peers.inner;
      } in
        handle_committed_config_change_entry env e s ≡ (
          ok tt,
          record s {
            raw_node = r;
            store = d3;
            fsm = f;
            peers = peers;
            last_snapshot_created = s.now;
            response_senders = HashMap.remove seq s.response_senders;
            replies =
                s.replies
                ++ config_change_reply x
                    (join_success (map (λ (c : ConfChangeSingle). c.node_id) v.changes) peers)
                  ∷ [];
          },
        )
  unfolding handle_committed_config_change_entry change_members change_response make_snapshot
      take_sender ◌>>=◌
  committed_join-answers e v addrs seq (local tx) s r c d1 d2 d3 bytes f dec ctx ad j n rc sc sn co
        cr ds g rec =
      rw (
        dec,
        ctx,
        ad,
        apply_members-entered v.changes [] addrs s j n,
        rc,
        sc,
        sn,
        co,
        cr,
        ds,
        g,
        j,
        rec,
      )
  committed_join-answers e v addrs seq (server tx) s r c d1 d2 d3 bytes f dec ctx ad j n rc sc sn co
        cr ds g rec =
      rw (
        dec,
        ctx,
        ad,
        apply_members-entered v.changes [] addrs s j n,
        rc,
        sc,
        sn,
        co,
        cr,
        ds,
        g,
        j,
        rec,
      )
