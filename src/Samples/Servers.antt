-- ===== src/Samples/Servers.antt =====
-- A server whose calls of other servers are refused, a client, and an encoding of peers without TLS settings.
use riteraft_ng.Prelude.{ℕ, zero, suc, Option, none, some, [], ◌∷◌}
use riteraft_ng.Outcome.{ok, timeout, recv_error}
use riteraft_ng.HashMap.{HashMap}
use riteraft_ng.Peers.{Peer, Peers, InitialRole, leader, voter, learner, peer_at}
use riteraft_ng.Proto.{Bytes}
use riteraft_ng.Node.Messages.{change_config_rejected}
use riteraft_ng.Server.{Server, default_change_response, default_id_response}
use riteraft_ng.Client.Reads.{Client}
use riteraft_ng.Samples.{addrs_codec}
use riteraft_ng.Samples.Strings.{resolver}
use riteraft_ng.Samples.Surroundings.{home}

abbrev pub role_number : InitialRole → ℕ
role_number leader = 0
role_number voter = 1
role_number learner = 2

abbrev pub role : ℕ → InitialRole
role zero = leader
role (suc zero) = voter
role (suc (suc n)) = learner

-- Peers without TLS settings: four numbers each.
abbrev pub encode_members : HashMap Peer → Bytes
encode_members [] = []
encode_members ((k, v) ∷ m) =
    k ∷ v.addr.ip ∷ v.addr.port ∷ role_number v.initial_role ∷ encode_members m

abbrev pub decode_members : Bytes → HashMap Peer
decode_members (k ∷ ip ∷ port ∷ r ∷ rest) =
    (k, peer_at (record { ip = ip; port = port }) (role r) none) ∷ decode_members rest
decode_members _ = []

abbrev pub decode_peers : Bytes → Option Peers
decode_peers bytes = some (record { inner = decode_members bytes; client_tls_config = none })

-- A server whose calls of other servers are refused.
abbrev pub sample_server : Server
sample_server = record {
  raft_addr = home;
  client_tls_config = none;
  net = resolver;
  encode_peers = λ p. encode_members p.inner;
  to_string = λ e. 1 ∷ [];
  elapsed = timeout;
  recv = recv_error;
  dial = λ a tls. ok 0;
  call_request_id = λ c a. ok default_id_response;
  call_change_config =
      λ c args. ok (record default_change_response { result_type = change_config_rejected });
  call_propose = λ c msg. ok tt;
}

-- No peers are decoded from nothing.
abbrev pub decode_some : Bytes → Option Peers
decode_some [] = none
decode_some (b ∷ bs) = decode_peers (b ∷ bs)

abbrev pub sample_client : Client
sample_client = record {
  client_tls_config = none;
  net = resolver;
  addrs = addrs_codec;
  decode_peers = decode_some;
  dial = λ a tls. ok 0;
  call_propose = λ c m. ok (record { error = [] });
  call_change_config = λ c args. ok default_change_response;
}
