-- ===== src/Client/Examples.antt =====
-- The methods of `RaftNode`, each at a concrete node or answer.
use riteraft_ng.Prelude.{ℕ, ◌≡◌, refl, none, [], ◌∷◌}
use riteraft_ng.Outcome.{Outcome, ok, panic, unknown}
use riteraft_ng.Proto.{ConfChangeV2, auto, default_conf_change, remove_node}
use riteraft_ng.ConfChange.{ConfChangeRequest}
use riteraft_ng.ConfChange
use riteraft_ng.ConfChange.RoundTrip.{from_v2-into_v2}
use riteraft_ng.Exec
use riteraft_ng.HashMap
use riteraft_ng.Peers
use riteraft_ng.Peers.{learner, peer_at}
use riteraft_ng.Node.Messages.{
  ConfChangeResponseResult, LocalRequestMsg, LocalResponseMsg, ResponseResult, ServerResponseMsg,
}
use riteraft_ng.Storage.Ordered.{Pairs}
use riteraft_ng.Storage.Heed.Core as Disk
use riteraft_ng.Node.State.{RaftNodeCore, to_local}
use riteraft_ng.Node.Commit.{handle_committed_normal_entry}
use riteraft_ng.Node.Requests
use riteraft_ng.Node.Dispatch.{handle_local_request_msg}
use riteraft_ng.Server
use riteraft_ng.Client
use riteraft_ng.Client.{Awaited, answered}
use riteraft_ng.Client.Reads
use riteraft_ng.Client.Reads.{Client}
use riteraft_ng.Client.Answers.{received}
use riteraft_ng.Client.Kinds.{AnsweredOnce, message-AnsweredOnce}
use riteraft_ng.Client.Forwarding.{change_config-forwarded, leave-refused, through}
use riteraft_ng.Client.Mismatch.{change_config-mismatched}
use riteraft_ng.Samples
use riteraft_ng.Samples.{addrs_codec}
use riteraft_ng.Samples.Servers.{sample_client, sample_server}
use riteraft_ng.Samples.Strings
use riteraft_ng.Samples.Strings.{resolver, print_addr}
use riteraft_ng.Samples.Surroundings.{Raw, node, node_env, away, two_peers, entry}

abbrev ask : ℕ → LocalRequestMsg → Awaited ℕ (Disk.State Pairs) Raw
ask tx m = received tx (handle_local_request_msg node_env m (node 2)).1

abbrev after_quit : RaftNodeCore ℕ (Disk.State Pairs) Raw
after_quit = (handle_local_request_msg node_env (LocalRequestMsg.quit 5) (node 2)).1

message-AnsweredOnce_example : AnsweredOnce node_env (LocalRequestMsg.quit 5) (node 2) after_quit
unfolding handle_local_request_msg
message-AnsweredOnce_example =
    message-AnsweredOnce node_env (LocalRequestMsg.quit 5) (node 2) after_quit refl

-- Node 3 is removed.
abbrev removal : ConfChangeV2
removal = record default_conf_change {
  changes = record { change_type = remove_node; node_id = 3 } ∷ [];
  context = 1 ∷ 3 ∷ [];
}

abbrev request : ConfChangeRequest
request = record {
  changes = record { change_type = remove_node; node_id = 3 } ∷ [];
  addrs = record { ip = 1; port = 3 } ∷ [];
}

abbrev refused : LocalRequestMsg → Awaited ℕ (Disk.State Pairs) Raw
refused m =
    answered
      (LocalResponseMsg.config_change (ConfChangeResponseResult.wrong_leader 2 (print_addr away)))

abbrev result : Server.Awaited → Outcome ConfChangeResponseResult
result a = Client.change_config refused 5 (through sample_client sample_server a) removal

abbrev told : ConfChangeResponseResult → Server.Awaited
told r = Server.answered (ServerResponseMsg.config_change r)

change_config-forwarded_example :
    (result (told (ConfChangeResponseResult.join_success (3 ∷ []) two_peers))
      ≡ ok (ConfChangeResponseResult.join_success (3 ∷ []) two_peers))
    × (result (told ConfChangeResponseResult.remove_success) ≡ panic)
    × (result (told (ConfChangeResponseResult.error unknown)) ≡ panic)
    × (result Server.dropped ≡ ok (ConfChangeResponseResult.error unknown))
    × (result Server.timed_out ≡ ok (ConfChangeResponseResult.error unknown))
unfolding ConfChange.from_v2 Samples.addrs Reads.create_client Strings.parse_addr Strings.read
change_config-forwarded_example =
    change_config-forwarded refused 5 sample_client sample_server removal request 2 0
      (print_addr away) two_peers (3 ∷ []) unknown refl refl refl refl refl

-- Node 1 leads and is asked to remove node 3.
abbrev asked : LocalRequestMsg
asked = LocalRequestMsg.change_config request 7

abbrev waiting : RaftNodeCore ℕ (Disk.State Pairs) Raw
waiting = (handle_local_request_msg node_env asked (node 1)).1

change_config-mismatched_example :
    let answer : LocalResponseMsg ℕ (Disk.State Pairs) Raw =
      LocalResponseMsg.propose ResponseResult.success in
    ((handle_local_request_msg node_env asked (node 1)).0 ≡ ok tt)
    × (handle_committed_normal_entry node_env (entry 1 5) waiting ≡ (
      ok tt,
      record waiting { fsm = 1; response_senders = []; replies = to_local 7 answer ∷ [] },
    ))
    × (Client.change_config (λ m. answered answer) 7 sample_client removal ≡ panic)
unfolding handle_local_request_msg ConfChange.from_v2 ConfChange.into_v2 Samples.addrs
    Requests.handle_confchange_request Requests.keep_sender HashMap.insert HashMap.remove Exec.◌>>=◌
change_config-mismatched_example =
    change_config-mismatched node_env sample_client removal removal request 7 (node 1) waiting
      (record { id = 1; leader_id = 1; applied = 0 }) (entry 1 5) [] 1 refl refl refl refl refl refl
      refl refl refl refl

leave-refused_example :
    (Client.leave (ask 7) 7 ≡ ok tt)
    × ((handle_local_request_msg node_env (LocalRequestMsg.leave 7) (node 2)).1 ≡ record (node 2) {
      replies =
          to_local 7 (
            LocalResponseMsg.config_change
              (ConfChangeResponseResult.wrong_leader 2 (print_addr away)))
          ∷ [];
    })
unfolding Peers.get HashMap.get
leave-refused_example =
    leave-refused node_env (node 2) (peer_at away learner none) 7 refl refl refl refl refl refl

from_v2-into_v2_example :
    (ConfChange.from_v2 addrs_codec removal ≡ ok request) × (removal.transition ≡ auto)
unfolding ConfChange.into_v2 Samples.addrs
from_v2-into_v2_example = from_v2-into_v2 addrs_codec request removal refl
