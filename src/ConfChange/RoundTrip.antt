-- ===== src/ConfChange/RoundTrip.antt =====
-- raftify/src/request/common/confchange_request.rs: what the conversions keep and what they lose.
use riteraft_ng.Prelude.{
  ◌≡◌, refl, ap, ◌≢◌, ◌↔◌, List, [], ◌∷◌, map, arith, ltb, if◌then◌else◌, Bool-cases, length,
}
use riteraft_ng.Outcome.{ok, panic}
use riteraft_ng.Net.{SocketAddr, Resolver}
use riteraft_ng.Proto.{Codec, ConfChangeSingle, ConfChangeV2, default_conf_change, explicit, auto}
use riteraft_ng.ConfChange.{
  ConfChangeRequest, copy_change, into_v2, from_v2, parse_addrs, set_transition, from_args,
  into_args,
}

pub map-copy_change : (cs : List ConfChangeSingle) → map copy_change cs ≡ cs
map-copy_change [] = refl
map-copy_change (c ∷ cs) = ap (◌∷◌ c) (map-copy_change cs)

parse_addrs-map :
    (net : Resolver) (xs : List SocketAddr) → parse_addrs net (map net.to_string xs) ≡ ok xs
unfolding parse_addrs
parse_addrs-map net [] = refl
parse_addrs-map net (a ∷ xs) = ground (arith, net.parse-to_string a, parse_addrs-map net xs)

-- A request survives the trip over gRPC: its arguments are parsed back to the request.
pub from_args-into_args :
    (net : Resolver) (r : ConfChangeRequest) → from_args net (into_args net r) ≡ ok r
unfolding from_args into_args
from_args-into_args net r =
    rw (parse_addrs-map net r.addrs) (ground (arith, map-copy_change r.changes))

-- A request that can be turned into the log's form is read back from it, and its transition there
-- is explicit exactly when it has more than one address.
pub from_v2-into_v2 :
    (bin : Codec (List SocketAddr)) (r : ConfChangeRequest) (v : ConfChangeV2)
    → into_v2 bin r ≡ ok v
    → (from_v2 bin v ≡ ok r) × (v.transition ≡ (if ltb 1 (length r.addrs) then explicit else auto))
unfolding from_v2 into_v2
from_v2-into_v2 bin r v h =
    let counted : length r.addrs ≡ length r.changes = ground arith in
    let made : v
        ≡ set_transition (ltb 1 (length r.addrs))
            (record default_conf_change { changes = r.changes; context = bin.encode r.addrs }) =
      ground arith in
    (
      rw made (
          ground (
            arith,
            bin.decode-encode r.addrs,
            map-copy_change r.changes,
            Bool-cases (ltb 1 (length r.addrs)),
          )),
      rw made (ground (arith, Bool-cases (ltb 1 (length r.addrs)))),
    )

-- Turning a request into the log's form panics exactly when it has not one address for each change.
pub into_v2-panic :
    (bin : Codec (List SocketAddr)) (r : ConfChangeRequest)
    → (into_v2 bin r ≡ panic) ↔ (length r.addrs ≢ length r.changes)
unfolding into_v2
into_v2-panic bin r = ground arith
