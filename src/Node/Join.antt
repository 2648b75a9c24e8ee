-- ===== src/Node/Join.antt =====
-- raftify/src/raft_node/mod.rs: how a new member gets its identifier, asks to join, and is entered
-- among the peers.
use riteraft_ng.Prelude.{
  ℕ, String, ◌≡◌, refl, sym, ap, ◌∙◌, ◌⊎◌, Bool, true, false, Option, none, some, List, [], ◌∷◌,
  arith, ltb, if◌then◌else◌, Option-cases, length,
}
use mathlib.Core.Path.{subst}
use riteraft_ng.Outcome.{Outcome, ok, >>=-eq-ok, unwrap, ◌>>=◌ as bind}
use riteraft_ng.HashMap
use riteraft_ng.HashMap.{HashMap}
use riteraft_ng.Net.{SocketAddr, addr_eq_iff, text}
use riteraft_ng.Peers
use riteraft_ng.Peers.{Peer, Peers, InitialRole, voter, peer_at, find_addr, unwrap_or}
use riteraft_ng.Peers.Ids.{add_peer_ok}
use riteraft_ng.Proto.{ConfChangeSingle, ConfChangeV2, default_conf_change, explicit}
use riteraft_ng.ConfChange.{from_v2, into_v2, from_args, into_args}
use riteraft_ng.ConfChange.RoundTrip.{from_args-into_args, map-copy_change}
use riteraft_ng.Node.Messages.{ClusterJoinTicket}
use riteraft_ng.Node.State.{Env, RaftNodeCore}
use riteraft_ng.Node.Requests.{join_change, join_changes}
use riteraft_ng.Node.Dispatch.{reserved_id}

find_addr-insert :
    (x : SocketAddr) (k : ℕ) (p : Peer) (m : HashMap Peer)
    → p.addr ≡ x
    → (find_addr x m ≡ none) ⊎ (find_addr x m ≡ some k)
    → find_addr x (HashMap.insert k p m) ≡ some k
unfolding find_addr HashMap.insert
find_addr-insert x k p [] e h = ground (arith, addr_eq_iff p.addr x)
find_addr-insert x k p ((j, q) ∷ m) e h =
    ground (arith, addr_eq_iff p.addr x, addr_eq_iff q.addr x, find_addr-insert x k p m e)

module _ {F S R : Type 0} (env : Env F S R) where
  -- Once a node has been added at its address, whatever the role, under the identifier that it was
  -- given, it is given the same identifier when it asks again.
  pub reserved_id-add_peer :
      (a : String) (id : ℕ) (role : Option InitialRole) (s : RaftNodeCore F S R) (q : Peers)
      → reserved_id env a s ≡ ok id
      → Peers.add_peer env.net id (text a) role s.peers ≡ ok q
      → reserved_id env a (record s { peers = q }) ≡ ok id
  unfolding reserved_id Peers.get_node_id_by_addr
  reserved_id-add_peer a id role s q h k =
      let (x, r, e) = add_peer_ok env.net id (text a) role s.peers q k in
      let p : Peer = peer_at x (unwrap_or role voter) s.peers.client_tls_config in
      let known : (find_addr x s.peers.inner ≡ none) ⊎ (find_addr x s.peers.inner ≡ some id) =
        ground (arith, r, h, Option-cases (find_addr x s.peers.inner)) in
      rw (e, r, find_addr-insert x id p s.peers.inner refl known)

  join_changes-length :
      (ts : List ClusterJoinTicket) (cs : List ConfChangeSingle) (addrs : List SocketAddr)
      → join_changes env ts ≡ ok (cs, addrs)
      → (length cs ≡ length ts) × (length addrs ≡ length ts)
  unfolding join_changes
  join_changes-length [] cs addrs h = ground arith
  join_changes-length (t ∷ ts) cs addrs h =
      let (a, _, k) = >>=-eq-ok (unwrap (env.net.parse t.raft_addr)) _ h in
      let ((ds, bs), e, l) = >>=-eq-ok (join_changes env ts) _ k in
      ground (arith, join_changes-length ts ds bs e, l)

  abbrev change_of : Bool → List ConfChangeSingle → List SocketAddr → ConfChangeV2
  change_of several cs addrs =
      let change = record default_conf_change { changes = cs; context = env.addrs.encode addrs } in
      if several then record change { transition = explicit } else change

  abbrev pub transmit : ConfChangeV2 → Outcome ConfChangeV2
  transmit v =
      bind (from_v2 env.addrs v)
        λ r. bind (from_args env.net (into_args env.net r)) (into_v2 env.addrs)

  transmit-change_of :
      (several : Bool) (cs : List ConfChangeSingle) (addrs : List SocketAddr)
      → length cs ≡ length addrs
      → ltb 1 (length addrs) ≡ several
      → transmit (change_of several cs addrs) ≡ ok (change_of several cs addrs)
  unfolding from_v2 into_v2
  transmit-change_of true cs addrs m b =
      rw (env.addrs.decode-encode addrs, map-copy_change cs)
        (rw (from_args-into_args env.net (record { changes = cs; addrs = addrs }))
          (ground (arith, m, b)))
  transmit-change_of false cs addrs m b =
      rw (env.addrs.decode-encode addrs, map-copy_change cs)
        (rw (from_args-into_args env.net (record { changes = cs; addrs = addrs }))
          (ground (arith, m, b)))

  -- A change that the tickets of a join give arrives at the leader as it was made: through the
  -- request, the message on the wire, and back.
  pub join_change-transmitted :
      (ts : List ClusterJoinTicket) (v : ConfChangeV2)
      → join_change env ts ≡ ok v
      → transmit v ≡ ok v
  unfolding join_change
  join_change-transmitted ts v h =
      let ((cs, addrs), e, l) = >>=-eq-ok (join_changes env ts) _ h in
      let (m, n) = join_changes-length ts cs addrs e in
      let b = ltb 1 (length ts) in
      let sent = transmit-change_of b cs addrs (m ∙ sym n) (ap (ltb 1) n) in
      subst (λ (o : Outcome ConfChangeV2). bind o transmit ≡ o) l sent
