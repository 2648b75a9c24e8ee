-- ===== src/Node/Joining.antt =====
-- raftify/src/raft_node/mod.rs and raftify/src/raft_server.rs: how a node that asks to join becomes
-- a member, from its request to the answer.
mod Examples
use riteraft_ng.Prelude.{
  ℕ, ◌+◌, ◌%◌, ◌≡◌, refl, ap, ◌∙◌, true, false, some, [], ◌∷◌, ◌++◌, arith, is_empty,
}
use riteraft_ng.Outcome.{Outcome, ok, ◌>>=◌ as bind}
use riteraft_ng.Exec.{◌>>=◌}
use riteraft_ng.HashMap
use riteraft_ng.HashMap.{get-insert}
use riteraft_ng.Net.{SocketAddr}
use riteraft_ng.Peers
use riteraft_ng.Peers.{u64, peer_at, voter}
use riteraft_ng.Proto.{Bytes, ConfChangeV2, ConfState, Entry, add_node, default_conf_change}
use riteraft_ng.ConfChange.{ConfChangeRequest, from_args, from_v2, into_args, into_v2}
use riteraft_ng.ConfChange.RoundTrip.{from_args-into_args}
use riteraft_ng.Node.Messages.{
  ClusterJoinTicket, ServerRequestMsg, ServerResponseMsg, join_success, server,
}
use riteraft_ng.Node.State.{Env, RaftNodeCore, is_leader, to_server}
use riteraft_ng.Node.Commit.{decode_change, handle_committed_config_change_entry}
use riteraft_ng.Node.Requests
use riteraft_ng.Node.Requests.{handle_confchange_request, join_change, join_changes}
use riteraft_ng.Node.Dispatch.{handle_server_request_msg}
use riteraft_ng.Node.Members.{committed_join-answers}

module _ {F S R : Type 0} (env : Env F S R) where
  -- What the server of the leader reads from the call that the joining node makes with a ticket.
  abbrev pub received : ClusterJoinTicket → Outcome ConfChangeRequest
  received t =
      bind (bind (join_change env (t ∷ [])) (from_v2 env.addrs))
        λ r. from_args env.net (into_args env.net r)

  abbrev pub request_of : ClusterJoinTicket → SocketAddr → ConfChangeRequest
  request_of t a = record {
    changes = record { change_type = add_node; node_id = t.reserved_id } ∷ [];
    addrs = a ∷ [];
  }

  abbrev pub change_of : ClusterJoinTicket → SocketAddr → ConfChangeV2
  change_of t a = record default_conf_change {
    changes = record { change_type = add_node; node_id = t.reserved_id } ∷ [];
    context = env.addrs.encode (a ∷ []);
  }

  received-request_of :
      (t : ClusterJoinTicket) (a : SocketAddr)
      → env.net.parse t.raft_addr ≡ some a
      → received t ≡ ok (request_of t a)
  unfolding join_change join_changes from_v2
  received-request_of t a p =
      rw (p, env.addrs.decode-encode (a ∷ [])) (from_args-into_args env.net (request_of t a))

  change_config-taken :
      (t : ClusterJoinTicket) (a : SocketAddr) (tx : ℕ) (s : RaftNodeCore F S R) (r : R)
      → is_leader env s ≡ true
      → env.raft.has_pending_conf s.raw_node ≡ false
      → env.raft.propose_conf_change
          (env.seq.encode s.response_seq)
          (change_of t a)
          s.store
          s.raw_node
        ≡ (ok tt, r)
      → handle_server_request_msg env (ServerRequestMsg.change_config (request_of t a) tx) s ≡ (
        ok tt,
        record s {
          raw_node = r;
          response_seq = (s.response_seq + 1) % u64;
          response_senders = HashMap.insert s.response_seq (server tx) s.response_senders;
        },
      )
  unfolding handle_server_request_msg into_v2 handle_confchange_request Requests.keep_sender ◌>>=◌
  change_config-taken t a tx s r l pc q = rw (pc, l, q)

  -- The leader, which has no change pending, takes the request that arrives from a node that joins
  -- with a ticket, where raft-rs takes the proposal. When the entry with that change and the number
  -- of the request is committed, while the request still waits, and raft-rs, the store and the state
  -- machine take it: the new node is among the peers, under the identifier of its ticket and as a
  -- voter at its address, and the server is answered with the identifier and the peers.
  pub join-committed :
      (t : ClusterJoinTicket) (a : SocketAddr) (tx : ℕ) (s u : RaftNodeCore F S R) (r0 r : R)
      (e : Entry) (c : ConfState) (d1 d2 d3 : S) (bytes : Bytes) (f : F)
      → env.net.parse t.raft_addr ≡ some a
      → is_leader env s ≡ true
      → env.raft.has_pending_conf s.raw_node ≡ false
      → env.raft.propose_conf_change
          (env.seq.encode s.response_seq)
          (change_of t a)
          s.store
          s.raw_node
        ≡ (ok tt, r0)
      → decode_change env e ≡ ok (change_of t a)
      → e.context ≡ env.seq.encode s.response_seq
      → is_empty e.context ≡ false
      → HashMap.get s.response_seq u.response_senders
        ≡ HashMap.get s.response_seq
            (handle_server_request_msg env
              (ServerRequestMsg.change_config (request_of t a) tx)
              s).1.response_senders
      → env.raft.apply_conf_change (change_of t a) u.store u.raw_node ≡ (ok c, r)
      → env.storage.set_conf_state c u.store ≡ (ok tt, d1)
      → env.fsm.snapshot u.fsm ≡ (ok bytes, f)
      → env.storage.compact (env.raft.applied r) d1 ≡ (ok tt, d2)
      → env.storage.create_snapshot bytes e.index e.term d2 ≡ (ok tt, d3)
      → u.receivers tx ≡ true
      → let after = handle_committed_config_change_entry env e u in
        (received t ≡ ok (request_of t a))
        × ((handle_server_request_msg env (ServerRequestMsg.change_config (request_of t a) tx) s).0
            ≡ ok tt)
        × (after.0 ≡ ok tt)
        × (Peers.get t.reserved_id after.1.peers ≡ some (peer_at a voter u.peers.client_tls_config))
        × (after.1.replies
            ≡ u.replies
              ++ to_server tx (
                  ServerResponseMsg.config_change (join_success (t.reserved_id ∷ []) after.1.peers))
                ∷ [])
  unfolding Peers.get
  join-committed t a tx s u r0 r e c d1 d2 d3 bytes f p l pc q dec ctx ne w rc sc sn co cr rec =
      let taken = change_config-taken t a tx s r0 l pc q in
      let kept = ap (λ z. HashMap.get s.response_seq z.1.response_senders) taken in
      let waits : HashMap.get s.response_seq u.response_senders ≡ some (server tx) =
        ground (
          arith,
          w,
          kept,
          get-insert s.response_seq s.response_seq (server tx) s.response_senders,
        ) in
      let done =
        committed_join-answers env e (change_of t a) (a ∷ []) s.response_seq (server tx) u r c d1 d2
          d3 bytes f dec ne (env.addrs.decode-encode (a ∷ [])) refl refl rc sc sn co cr
          (ap env.seq.decode ctx ∙ env.seq.decode-encode s.response_seq) waits rec in
      (
        received-request_of t a p,
        ap (λ z. z.0) taken,
        ap (λ z. z.0) done,
        rw done (
            ground (
              arith,
              get-insert t.reserved_id t.reserved_id (peer_at a voter u.peers.client_tls_config)
                  u.peers.inner,
            )),
        rw done refl,
      )
