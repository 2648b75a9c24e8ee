-- ===== src/Peers/Wire.antt =====
-- raftify/src/peers.rs: the conversions of `Peers` from and to the messages of raft_service and
-- the plain map of addresses, and the search of an id by its address.
use riteraft_ng.Prelude.{
  ℕ, String, ◌≡◌, refl, sym, ◌≢◌, ◌⊎◌, inl, inr, Option, none, some, List, [], ◌∷◌, ◌++◌, arith,
  Option-cases,
}
use mathlib.Core.List.{append-nil, append_assoc}
use riteraft_ng.Outcome.{Outcome, ok, ◌>>=◌}
use riteraft_ng.Net.{SocketAddr, text, socket, Resolver, addr_eq_iff}
use riteraft_ng.HashMap
use riteraft_ng.HashMap.{HashMap, Fresh, IsUnique, get-Fresh}
use riteraft_ng.Peers.{
  Peer, Peers, voter, peer_at, with_empty, add_peer, get, find_addr, get_node_id_by_addr,
}

-- raft_service::Peer and raft_service::Peers.
pub record WirePeer : Type 0 where
  pub node_id : ℕ
  pub addr : String

abbrev pub WirePeers : Type 0
WirePeers = List WirePeer

-- The loop of `From<raft_service::Peers>`.
unfoldable pub add_wire_peers : Resolver → WirePeers → Peers → Outcome Peers
add_wire_peers net [] p = ok p
add_wire_peers net (w ∷ ws) p =
    add_peer net w.node_id (text w.addr) (some voter) p >>= λ q. add_wire_peers net ws q

unfoldable pub from_wire : Resolver → WirePeers → Outcome Peers
unfolding add_wire_peers
from_wire net ws = add_wire_peers net ws with_empty

abbrev wire_entries : Resolver → HashMap Peer → WirePeers
wire_entries net [] = []
wire_entries net ((id, peer) ∷ m) =
    record { node_id = id; addr = net.to_string peer.addr } ∷ wire_entries net m

unfoldable pub into_wire : Resolver → Peers → WirePeers
into_wire net p = wire_entries net p.inner

abbrev pub addrs_of : HashMap Peer → HashMap SocketAddr
addrs_of [] = []
addrs_of ((k, v) ∷ m) = (k, v.addr) ∷ addrs_of m

-- `From<Peers> for HashMap<u64, SocketAddr>`
unfoldable pub into_addrs : Peers → HashMap SocketAddr
into_addrs p = addrs_of p.inner

abbrev voters_at : HashMap SocketAddr → HashMap Peer
voters_at [] = []
voters_at ((k, a) ∷ m) = (k, peer_at a voter none) ∷ voters_at m

-- `From<HashMap<u64, SocketAddr>> for Peers`
unfoldable pub from_addrs : HashMap SocketAddr → Peers
from_addrs m = record { inner = voters_at m; client_tls_config = none }

-- What a member keeps on the way: its address.
abbrev pub as_voter : Option Peer → Option Peer
as_voter none = none
as_voter (some v) = some (peer_at v.addr voter none)

get-voters_at :
    (k : ℕ) (m : HashMap Peer) → HashMap.get k (voters_at (addrs_of m)) ≡ as_voter (HashMap.get k m)
unfolding HashMap.get
get-voters_at k [] = refl
get-voters_at k ((j, v) ∷ m) = ground (arith, get-voters_at k m)

insert-Fresh :
    (k : ℕ) (v : Peer) (m : HashMap Peer) → Fresh k m → HashMap.insert k v m ≡ m ++ (k, v) ∷ []
unfolding HashMap.insert
insert-Fresh k v [] h = refl
insert-Fresh k v ((j, w) ∷ m) h = ground (arith, insert-Fresh k v m h.1)

-- No key of `m` is in `acc`.
abbrev Apart : HashMap Peer → HashMap Peer → Type 0
Apart acc [] = Unit {0}
Apart acc ((k, v) ∷ m) = Fresh k acc × Apart acc m

Fresh-append :
    (k j : ℕ) (v : Peer) (m : HashMap Peer) → j ≢ k → Fresh k m → Fresh k (m ++ (j, v) ∷ [])
Fresh-append k j v [] ne h = (ne, tt)
Fresh-append k j v ((i, w) ∷ m) ne h = (h.0, Fresh-append k j v m ne h.1)

Apart-append :
    (k : ℕ) (v : Peer) (acc m : HashMap Peer)
    → Fresh k m
    → Apart acc m
    → Apart (acc ++ (k, v) ∷ []) m
Apart-append k v acc [] f h = tt
Apart-append k v acc ((j, w) ∷ m) f h =
    (Fresh-append j k v acc (λ e. f.0 (sym e)) h.0, Apart-append k v acc m f.1 h.1)

add_peer-Fresh :
    (net : Resolver) (k : ℕ) (a : SocketAddr) (p : Peers)
    → Fresh k p.inner
    → add_peer net k (text (net.to_string a)) (some voter) p
      ≡ ok (record p { inner = p.inner ++ (k, peer_at a voter p.client_tls_config) ∷ [] })
unfolding add_peer
add_peer-Fresh net k a p f =
    rw (net.resolve-to_string a)
      (ground (arith, insert-Fresh k (peer_at a voter p.client_tls_config) p.inner f))

add_wire_peers_lem :
    (net : Resolver) (m acc : HashMap Peer)
    → IsUnique m
    → Apart acc m
    → add_wire_peers net (wire_entries net m) (record { inner = acc; client_tls_config = none })
      ≡ ok (record { inner = acc ++ voters_at (addrs_of m); client_tls_config = none })
unfolding add_wire_peers
add_wire_peers_lem net [] acc u a = rw append-nil
add_wire_peers_lem net ((k, v) ∷ m) acc u a =
    rw (add_peer-Fresh net k v.addr (record { inner = acc; client_tls_config = none }) a.0) (
      rw
        (add_wire_peers_lem net m (acc ++ (k, peer_at v.addr voter none) ∷ []) u.1
          (Apart-append k (peer_at v.addr voter none) acc m u.0 a.1))
        (rw append_assoc))

Apart-nil : (m : HashMap Peer) → Apart [] m
Apart-nil [] = tt
Apart-nil ((k, v) ∷ m) = (tt, Apart-nil m)

-- Members with distinct ids that are sent over the wire and read back keep their ids and
-- addresses, and all come back as voters with no TLS settings and no connection, whatever their
-- roles were.
pub from_wire-into_wire :
    (net : Resolver) (p : Peers)
    → IsUnique p.inner
    → (q : Peers) × (from_wire net (into_wire net p) ≡ ok q)
      × (q ≡ from_addrs (into_addrs p))
      × ((id : ℕ) → get id q ≡ as_voter (get id p))
unfolding from_wire into_wire from_addrs into_addrs get
from_wire-into_wire net p u = (
  record { inner = voters_at (addrs_of p.inner); client_tls_config = none },
  add_wire_peers_lem net p.inner [] u (Apart-nil p.inner),
  refl,
  λ id. get-voters_at id p.inner,
)

-- The address of a peer that may be missing.
abbrev pub HasAddr : SocketAddr → Option Peer → Type 0
HasAddr a none = ⊥
HasAddr a (some v) = v.addr ≡ a

find_addr-none :
    (a : SocketAddr) (m : HashMap Peer) (k : ℕ)
    → find_addr a m ≡ none
    → ¬ HasAddr a (HashMap.get k m)
unfolding find_addr HashMap.get
find_addr-none a [] k h = λ e. e
find_addr-none a ((j, v) ∷ m) k h = ground (arith, addr_eq_iff v.addr a, find_addr-none a m k)

find_addr-Fresh : (a : SocketAddr) (j : ℕ) (m : HashMap Peer) → Fresh j m → find_addr a m ≢ some j
unfolding find_addr
find_addr-Fresh a j [] h = λ e. cc
find_addr-Fresh a j ((k, v) ∷ m) h = ground (arith, find_addr-Fresh a j m h.1)

find_addr-some :
    (a : SocketAddr) (m : HashMap Peer)
    → IsUnique m
    → (k : ℕ) → find_addr a m ≡ some k
    → HasAddr a (HashMap.get k m)
unfolding find_addr HashMap.get
find_addr-some a [] u k h = cc
find_addr-some a ((j, v) ∷ m) u k h =
    ground (arith, addr_eq_iff v.addr a, find_addr-some a m u.1 k, find_addr-Fresh a j m u.0)

-- Among members with distinct ids the search by address is exact: either it returns a member at
-- that address, or it returns none and no member is there.
pub get_node_id_by_addr_lem :
    (net : Resolver) (a : SocketAddr) (p : Peers)
    → IsUnique p.inner
    → ((k : ℕ) × (get_node_id_by_addr net (socket a) p ≡ ok (some k)) × HasAddr a (get k p))
      ⊎ ((get_node_id_by_addr net (socket a) p ≡ ok none) × ((k : ℕ) → ¬ HasAddr a (get k p)))
unfolding get_node_id_by_addr get
get_node_id_by_addr_lem net a p u = elim (Option-cases (find_addr a p.inner)) [
  | inl e ↦ inr (rw e, λ k. find_addr-none a p.inner k e)
  | inr (k, e) ↦ inl (k, rw e, find_addr-some a p.inner u k e)
]
