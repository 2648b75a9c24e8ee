-- ===== src/Peers.antt =====
-- raftify/src/peer.rs, raftify/src/peers.rs and raftify/src/raft_node/role.rs: the members that a
-- node knows. A connection is a handle; opening one is an argument (`connect`).
use riteraft_ng.Prelude.{
  ℕ, ◌+◌, ◌%◌, ◌^◌, String, Option, none, some, [], ◌∷◌, if◌then◌else◌, length, max,
}
use riteraft_ng.Outcome.{Outcome, ok, unwrap, ◌>>=◌}
pub mod Ids
pub mod Iter
pub mod Wire
mod Examples
use riteraft_ng.Net.{SocketAddr, addr_eq, Addr, socket, Resolver, to_socket_addr}
use riteraft_ng.HashMap
use riteraft_ng.HashMap.{HashMap}

pub data InitialRole : Type 0 where
  leader voter learner : InitialRole

pub record TlsConfig : Type 0 where
  pub cert_path : Option String
  pub key_path : Option String
  pub ca_cert_path : Option String
  pub domain_name : Option String

pub record Peer : Type 0 where
  pub addr : SocketAddr
  pub initial_role : InitialRole
  pub client_tls_config : Option TlsConfig
  pub client : Option ℕ

-- Peer::new, once its address is resolved.
abbrev pub peer_at : SocketAddr → InitialRole → Option TlsConfig → Peer
peer_at a role tls = record {
  addr = a;
  initial_role = role;
  client_tls_config = tls;
  client = none;
}

pub record Peers : Type 0 where
  pub inner : HashMap Peer
  pub client_tls_config : Option TlsConfig

abbrev pub u64 : ℕ
u64 = 2 ^ 64

-- Option::unwrap_or.
abbrev pub unwrap_or {ℓ} : {A : Type ℓ} → Option A → A → A
unwrap_or none d = d
unwrap_or (some a) d = a

abbrev pub with_empty : Peers
with_empty = record { inner = []; client_tls_config = none }

-- The two uses of `ToSocketAddrs`: resolve the text, or take the address; `unwrap` the result.
unfoldable pub new_peer : Resolver → Addr → InitialRole → Option TlsConfig → Outcome Peer
new_peer net a role tls = unwrap (to_socket_addr net a) >>= λ x. ok (peer_at x role tls)

unfoldable pub new : Resolver → ℕ → Addr → Option TlsConfig → Outcome Peers
unfolding new_peer
new net self_id self_addr tls = new_peer net self_addr voter tls >>= λ p.
    ok (record { inner = HashMap.insert self_id p []; client_tls_config = tls })

unfoldable pub add_peer : Resolver → ℕ → Addr → Option InitialRole → Peers → Outcome Peers
unfolding new_peer
add_peer net id a role p = unwrap (to_socket_addr net a) >>= λ x.
    new_peer net (socket x) (unwrap_or role voter) p.client_tls_config >>= λ peer.
    ok (record p { inner = HashMap.insert id peer p.inner })

unfoldable pub replace : Peers → Peers → Peers
replace p other = record p { inner = other.inner }

unfoldable pub get : ℕ → Peers → Option Peer
get id p = HashMap.get id p.inner

unfoldable pub remove : ℕ → Peers → Peers
remove id p = record p { inner = HashMap.remove id p.inner }

unfoldable pub len : Peers → ℕ
len p = length p.inner

-- `self.inner.keys().max()`
unfoldable pub max_key : HashMap Peer → Option ℕ
max_key [] = none
max_key ((k, v) ∷ m) = some (max k (unwrap_or (max_key m) 0))

-- `id + 1` wraps in a release build.
unfoldable pub reserve_id : Peers → ℕ
unfolding max_key
reserve_id p = elim (max_key p.inner) [ none ↦ 1 | some id ↦ (id + 1) % u64 ]

unfoldable pub find_addr : SocketAddr → HashMap Peer → Option ℕ
find_addr a [] = none
find_addr a ((k, v) ∷ m) = if addr_eq v.addr a then some k else find_addr a m

unfoldable pub get_node_id_by_addr : Resolver → Addr → Peers → Outcome (Option ℕ)
unfolding find_addr
get_node_id_by_addr net a p = unwrap (to_socket_addr net a) >>= λ x. ok (find_addr x p.inner)

-- Peers::connect. `dial` is `create_client`.
unfoldable pub connect : (SocketAddr → Option TlsConfig → Outcome ℕ) → ℕ → Peers → Outcome Peers
connect dial id p = unwrap (HashMap.get id p.inner) >>= λ peer.
    dial peer.addr peer.client_tls_config >>= λ c.
    ok (record p { inner = HashMap.insert id (record peer { client = some c }) p.inner })
