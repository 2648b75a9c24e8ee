-- ===== src/Peers/Ids.antt =====
-- raftify/src/peers.rs: `reserve_id` and `add_peer` as the allocation of node ids.
use riteraft_ng.Prelude.{
  ℕ, ◌+◌, ◌<◌, ◌≡◌, inl, inr, Option, none, some, [], ◌∷◌, arith, Option-cases,
}
use riteraft_ng.Outcome.{ok}
use riteraft_ng.Net.{Addr, Resolver, to_socket_addr, SocketAddr}
use riteraft_ng.HashMap
use riteraft_ng.HashMap.{HashMap, Fresh, get-insert, get-Fresh}
use riteraft_ng.Peers.{
  Peer, Peers, InitialRole, voter, peer_at, u64, unwrap_or, max_key, reserve_id, get, add_peer,
}

-- Every id leaves room for its successor in 64 bits.
abbrev pub HasRoom : ℕ → HashMap Peer → Type 0
HasRoom n [] = Unit {0}
HasRoom n ((k, v) ∷ m) = (k + n < u64) × HasRoom n m

abbrev pub max_id : HashMap Peer → ℕ
max_id m = unwrap_or (max_key m) 0

max_id-Fresh : (k : ℕ) (m : HashMap Peer) → max_id m < k → Fresh k m
unfolding max_key
max_id-Fresh k [] h = tt
max_id-Fresh k ((j, v) ∷ m) h = (omega arith, max_id-Fresh k m (omega arith))

HasRoom-max_id : (n : ℕ) (m : HashMap Peer) → n < u64 → HasRoom n m → max_id m + n < u64
unfolding max_key
HasRoom-max_id n [] b h = omega arith
HasRoom-max_id n ((k, v) ∷ m) b h = omega (arith, HasRoom-max_id n m b h.1)

reserve_id-max_id : (p : Peers) → HasRoom 1 p.inner → reserve_id p ≡ max_id p.inner + 1
unfolding reserve_id
reserve_id-max_id p h = ground (arith, HasRoom-max_id 1 p.inner)

max_id-insert :
    (k : ℕ) (v : Peer) (m : HashMap Peer) → max_id m < k → max_id (HashMap.insert k v m) ≡ k
unfolding max_key HashMap.insert
max_id-insert k v [] h = omega arith
max_id-insert k v ((j, w) ∷ m) h = ground (arith, max_id-insert k v m)

HasRoom-insert :
    (n k : ℕ) (v : Peer) (m : HashMap Peer)
    → k + n < u64
    → HasRoom n m
    → HasRoom n (HashMap.insert k v m)
unfolding HashMap.insert
HasRoom-insert n k v [] b h = (b, tt)
HasRoom-insert n k v ((j, w) ∷ m) b h = ground (arith, HasRoom-insert n k v m b h.1)

HasRoom-mono : (m : HashMap Peer) → HasRoom 2 m → HasRoom 1 m
HasRoom-mono [] h = tt
HasRoom-mono ((k, v) ∷ m) h = (omega arith, HasRoom-mono m h.1)

-- While every id has a successor in 64 bits, `reserve_id` returns a positive id below 2^64 that
-- lies above every known id, so no known peer has it.
pub reserve_id-fresh :
    (p : Peers)
    → HasRoom 1 p.inner
    → (0 < reserve_id p)
      × (reserve_id p < u64)
      × (max_id p.inner < reserve_id p)
      × (get (reserve_id p) p ≡ none)
unfolding get
reserve_id-fresh p h =
    let e = reserve_id-max_id p h in
    (
      omega arith,
      omega (arith, HasRoom-max_id 1 p.inner (omega arith) h),
      omega arith,
      get-Fresh (reserve_id p) p.inner (max_id-Fresh (reserve_id p) p.inner (omega arith)),
    )

-- A successful `add_peer` inserts exactly one peer, unconnected, at the resolved address, with the
-- given role (a voter by default) and the members' TLS settings.
pub add_peer_ok :
    (net : Resolver) (id : ℕ) (a : Addr) (role : Option InitialRole) (p q : Peers)
    → add_peer net id a role p ≡ ok q
    → (x : SocketAddr) × (to_socket_addr net a ≡ some x)
      × (q ≡ record p {
        inner = HashMap.insert id (peer_at x (unwrap_or role voter) p.client_tls_config) p.inner;
      })
unfolding add_peer
add_peer_ok net id a role p q h = elim (Option-cases (to_socket_addr net a)) [
  | inl e ↦ cc (rw (e, add_peer) at h)
  | inr (x, e) ↦ (x, e, ground (arith, rw (e, add_peer) at h))
]

-- While every id has two successors in 64 bits, ids are handed out in series: once the reserved id
-- has joined, the next reservation is its successor.
pub reserve_id-add_peer :
    (net : Resolver) (a : Addr) (role : Option InitialRole) (p q : Peers)
    → HasRoom 2 p.inner
    → add_peer net (reserve_id p) a role p ≡ ok q
    → reserve_id q ≡ reserve_id p + 1
reserve_id-add_peer net a role p q room h =
    let (x, _, e) = add_peer_ok net (reserve_id p) a role p q h in
    let m = p.inner in
    let k = reserve_id p in
    let v = peer_at x (unwrap_or role voter) p.client_tls_config in
    let k_eq : k ≡ max_id m + 1 = reserve_id-max_id p (HasRoom-mono m room) in
    let fits : k + 1 < u64 = omega (arith, HasRoom-max_id 2 m (omega arith) room) in
    rw e (
      omega (
        arith,
        max_id-insert k v m (omega arith),
        reserve_id-max_id _ (HasRoom-insert 1 k v m fits (HasRoom-mono m room)),
      ))
