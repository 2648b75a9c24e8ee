-- ===== src/Server/Examples.antt =====
-- The responses of a server, each at a concrete answer.
use riteraft_ng.Prelude.{ℕ, ◌≡◌, refl, [], ◌∷◌}
use riteraft_ng.Outcome.{ok, err, panic, recv_error, ◌>>=◌ as bind}
use riteraft_ng.Peers
use riteraft_ng.Peers.{Peer, Peers, InitialRole, leader, voter, learner, peer_at}
use riteraft_ng.Peers.Wire.{into_addrs}
use riteraft_ng.Node.Messages.{ServerResponseMsg}
use riteraft_ng.Node.State.{to_server}
use riteraft_ng.Node.Dispatch
use riteraft_ng.Node.Dispatch.{handle_request_id}
use riteraft_ng.Server
use riteraft_ng.Server.{
  Server, ChangeConfigResponse, answered, change_config, default_change_response,
  default_id_response, request_id, ticket,
}
use riteraft_ng.Server.Responses.{request_id-ticket}
use riteraft_ng.Exec
use riteraft_ng.Storage.Ordered.{Pairs}
use riteraft_ng.Storage.Heed.Core as Disk
use riteraft_ng.Node.State.{RaftNodeCore}
use riteraft_ng.Node.Messages.{LocalRequestMsg, ServerRequestMsg}
use riteraft_ng.Node.Dispatch.{handle_local_request_msg, handle_server_request_msg}
use riteraft_ng.Server.Methods
use riteraft_ng.Server.Kinds.{AnsweredOnce, server_message-AnsweredOnce}
use riteraft_ng.Server.NoLeader
use riteraft_ng.Server.NoLeader.{no_leader-drops}
use riteraft_ng.Client
use riteraft_ng.Client.Answers
use riteraft_ng.Samples.Servers.{decode_peers, sample_client, sample_server}
use riteraft_ng.Samples.Strings
use riteraft_ng.Samples.Strings.{resolver, print_addr}
use riteraft_ng.Samples.Surroundings.{Raw, away, home, node, node_env}

request_id-ticket_example :
    (m : ServerResponseMsg) × (handle_request_id node_env (print_addr away) 9 (node 1)
      ≡ (ok tt, record (node 1) { replies = to_server 9 m ∷ [] }))
    × (bind (request_id sample_server (print_addr away) m) (ticket decode_peers (print_addr away))
        ≡ ok (record {
          reserved_id = 2;
          raft_addr = print_addr away;
          leader_addr = print_addr home;
          peers = (1, home) ∷ (2, away) ∷ [];
        }))
unfolding into_addrs Dispatch.reserved_id Peers.get_node_id_by_addr Peers.find_addr
    Strings.parse_addr Strings.read
request_id-ticket_example =
    request_id-ticket node_env sample_server decode_peers (print_addr away) 9 2 (node 1) refl refl
      refl refl

abbrev after_get_peers : RaftNodeCore ℕ (Disk.State Pairs) Raw
after_get_peers = (handle_server_request_msg node_env (ServerRequestMsg.get_peers 9) (node 1)).1

server_message-AnsweredOnce_example :
    AnsweredOnce node_env (ServerRequestMsg.get_peers 9) (node 1) after_get_peers
unfolding handle_server_request_msg Exec.◌>>=◌
server_message-AnsweredOnce_example =
    server_message-AnsweredOnce node_env (ServerRequestMsg.get_peers 9) (node 1) after_get_peers
      refl

abbrev ask_server : ServerRequestMsg → Server.Awaited
ask_server m = NoLeader.received 9 (handle_server_request_msg node_env m (node 0)).1

abbrev ask_node : LocalRequestMsg → Client.Awaited ℕ (Disk.State Pairs) Raw
ask_node m = Answers.received 9 (handle_local_request_msg node_env m (node 0)).1

no_leader-drops_example :
    (handle_server_request_msg node_env (ServerRequestMsg.propose (5 ∷ []) 9) (node 0)
      ≡ (ok tt, node 0))
    × (handle_server_request_msg node_env (ServerRequestMsg.request_id (print_addr away) 9) (node 0)
        ≡ (ok tt, node 0))
    × (handle_local_request_msg node_env (LocalRequestMsg.propose (5 ∷ []) 9) (node 0)
        ≡ (ok tt, node 0))
    × (Methods.propose ask_server 9 sample_server (5 ∷ []) ≡ panic)
    × (Methods.request_id ask_server 9 sample_server (print_addr away) ≡ panic)
    × (Client.propose ask_node 9 sample_client (5 ∷ []) ≡ err recv_error)
no_leader-drops_example =
    no_leader-drops node_env (node 0) (5 ∷ []) (print_addr away) 9 sample_server sample_client refl
      refl refl refl
