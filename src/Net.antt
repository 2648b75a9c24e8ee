-- ===== src/Net.antt =====
-- std::net: socket addresses, and the resolution of names, which the operating system does.
use riteraft_ng.Prelude.{ℕ, String, ◌≡◌, ◌↔◌, Bool, true, ◌&&◌, Option, some, arith, ◌==◌}

pub record SocketAddr : Type 0 where
  pub ip : ℕ
  pub port : ℕ

abbrev pub addr_eq : SocketAddr → SocketAddr → Bool
addr_eq a b = a.ip == b.ip && a.port == b.port

pub addr_eq_iff : (a b : SocketAddr) → (addr_eq a b ≡ true) ↔ (a ≡ b)
addr_eq_iff a b = ground arith

-- What implements `ToSocketAddrs` in the crate: a text, or an address, which is its own resolution.
pub data Addr : Type 0 where
  text : String → Addr
  socket : SocketAddr → Addr

-- `resolve` is `to_socket_addrs().ok().next()` and `parse` is `FromStr`. An address that was
-- printed is read back by both.
pub record Resolver : Type 0 where
  pub resolve : String → Option SocketAddr
  pub parse : String → Option SocketAddr
  pub to_string : SocketAddr → String
  pub resolve-to_string : (a : SocketAddr) → resolve (to_string a) ≡ some a
  pub parse-to_string : (a : SocketAddr) → parse (to_string a) ≡ some a

abbrev pub to_socket_addr : Resolver → Addr → Option SocketAddr
to_socket_addr net (text s) = net.resolve s
to_socket_addr net (socket a) = some a
