-- ===== src/ConfChange.antt =====
-- raftify/src/request/common/confchange_request.rs and raftify/src/utils/membership.rs: the forms
-- of a membership change, and the conversions between them.
pub mod RoundTrip
use riteraft_ng.Prelude.{
  String, Bool, true, false, List, [], ◌∷◌, map, ltb, ◌==◌, if◌then◌else◌, length,
}
use riteraft_ng.Outcome.{Outcome, ok, panic, unwrap, ◌>>=◌}
use riteraft_ng.Net.{SocketAddr, Resolver}
use riteraft_ng.Proto.{
  Codec, ConfChange, ConfChangeSingle, ConfChangeV2, default_conf_change, explicit,
}

pub record ConfChangeRequest : Type 0 where
  pub changes : List ConfChangeSingle
  pub addrs : List SocketAddr

-- raft_service::ChangeConfigArgs
pub record ChangeConfigArgs : Type 0 where
  pub addrs : List String
  pub changes : List ConfChangeSingle

abbrev pub set_transition : Bool → ConfChangeV2 → ConfChangeV2
set_transition true v = record v { transition = explicit }
set_transition false v = v

-- `From<ConfChangeRequest> for ConfChangeV2`
unfoldable pub into_v2 : Codec (List SocketAddr) → ConfChangeRequest → Outcome ConfChangeV2
into_v2 bin r =
    if length r.addrs == length r.changes
    then ok (
        set_transition (ltb 1 (length r.addrs))
          (record default_conf_change { changes = r.changes; context = bin.encode r.addrs }))
    else panic

-- The copy of each change, field by field.
abbrev pub copy_change : ConfChangeSingle → ConfChangeSingle
copy_change c = record { change_type = c.change_type; node_id = c.node_id }

-- `From<ConfChangeV2> for ConfChangeRequest`
unfoldable pub from_v2 : Codec (List SocketAddr) → ConfChangeV2 → Outcome ConfChangeRequest
from_v2 bin v = unwrap (bin.decode v.context) >>= λ addrs.
    ok (record { changes = map copy_change v.changes; addrs = addrs })

unfoldable pub parse_addrs : Resolver → List String → Outcome (List SocketAddr)
parse_addrs net [] = ok []
parse_addrs net (s ∷ ss) =
    unwrap (net.parse s) >>= λ a. parse_addrs net ss >>= λ rest. ok (a ∷ rest)

-- `From<ChangeConfigArgs> for ConfChangeRequest`
unfoldable pub from_args : Resolver → ChangeConfigArgs → Outcome ConfChangeRequest
unfolding parse_addrs
from_args net args = parse_addrs net args.addrs >>= λ addrs.
    ok (record { changes = map copy_change args.changes; addrs = addrs })

-- `From<ConfChangeRequest> for ChangeConfigArgs`
unfoldable pub into_args : Resolver → ConfChangeRequest → ChangeConfigArgs
into_args net r = record { addrs = map net.to_string r.addrs; changes = map copy_change r.changes }

-- membership.rs
unfoldable pub to_confchange_v2 : ConfChange → ConfChangeV2
to_confchange_v2 c = record default_conf_change {
  changes = record { change_type = c.change_type; node_id = c.node_id } ∷ [];
  context = c.context;
}
