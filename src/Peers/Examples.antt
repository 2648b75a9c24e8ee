-- ===== src/Peers/Examples.antt =====
-- The theorems on the peers, each at a concrete map.
use riteraft_ng.Prelude.{ℕ, ◌<◌, ◌≡◌, none, arith}
use riteraft_ng.Outcome.{ok}
use riteraft_ng.HashMap
use riteraft_ng.HashMap.{IsUnique}
use riteraft_ng.Peers.{Peers, get, reserve_id, u64}
use riteraft_ng.Peers.Ids.{max_id, reserve_id-fresh}
use riteraft_ng.Peers.Iter
use riteraft_ng.Peers.Iter.{IsAscending, collect, collect-iter, iter}
use riteraft_ng.Peers.Wire.{
  as_voter, from_addrs, from_wire, from_wire-into_wire, into_addrs, into_wire,
}
use riteraft_ng.Samples.Surroundings.{two_peers}
use riteraft_ng.Samples.Strings.{resolver}

reserve_id-fresh_example :
    (0 < reserve_id two_peers)
    × (reserve_id two_peers < u64)
    × (max_id two_peers.inner < reserve_id two_peers)
    × (get (reserve_id two_peers) two_peers ≡ none)
reserve_id-fresh_example = reserve_id-fresh two_peers (omega arith, (omega arith, tt))

two_peers-IsUnique : IsUnique two_peers.inner
two_peers-IsUnique = ((λ e. cc e, tt), (tt, tt))

collect-iter_example :
    IsAscending (HashMap.keys (collect 2 (iter two_peers)))
    × ((j : ℕ) → HashMap.get j (collect 2 (iter two_peers)) ≡ get j two_peers)
unfolding Iter.sort Iter.insert_sorted
collect-iter_example = collect-iter two_peers 2 two_peers-IsUnique (omega arith)

from_wire-into_wire_example :
    (q : Peers) × (from_wire resolver (into_wire resolver two_peers) ≡ ok q)
    × (q ≡ from_addrs (into_addrs two_peers))
    × ((id : ℕ) → get id q ≡ as_voter (get id two_peers))
from_wire-into_wire_example = from_wire-into_wire resolver two_peers two_peers-IsUnique
