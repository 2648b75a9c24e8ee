-- ===== src/Node/Joining/Examples.antt =====
-- A node that joins, at a concrete leader.
use riteraft_ng.Prelude.{ℕ, ◌≡◌, refl, false, none, some, [], ◌∷◌}
use riteraft_ng.Outcome.{ok}
use riteraft_ng.HashMap
use riteraft_ng.Exec
use riteraft_ng.Peers
use riteraft_ng.Peers.{Peers, Peer, peer_at, voter, learner}
use riteraft_ng.Proto.{
  ConfChangeV2, Entry, entry_conf_change_v2, default_conf_change, default_conf_state, add_node,
}
use riteraft_ng.Storage.Heed.CompactedLogs
use riteraft_ng.Storage.View
use riteraft_ng.Storage.Ordered
use riteraft_ng.Storage.Ordered.{Pairs}
use riteraft_ng.Storage.Heed
use riteraft_ng.Storage.Heed.Core as Disk
use riteraft_ng.Storage.Keys
use riteraft_ng.Node.Messages.{
  local, server, ServerRequestMsg, ServerResponseMsg, ClusterJoinTicket, join_success,
}
use riteraft_ng.Node.State.{RaftNodeCore, to_server}
use riteraft_ng.Node.Commit
use riteraft_ng.Node.Requests
use riteraft_ng.Node.Dispatch
use riteraft_ng.ConfChange
use riteraft_ng.Node.Answers.{config_change_reply}
use riteraft_ng.Node.Joining.{join-committed, received, request_of}
use riteraft_ng.Node.Members.{committed_join-answers}
use riteraft_ng.Samples
use riteraft_ng.Samples.Strings
use riteraft_ng.Samples.{number_codec, addrs_codec, conf_change_v2_codec, print_addr, resolver}
use riteraft_ng.Samples.Surroundings.{Raw, node_env, node, home, two_peers, empty_heed}

-- A local request waits under the number 0.
abbrev asked_locally : RaftNodeCore ℕ (Disk.State Pairs) Raw
asked_locally = record (node 1) { response_seq = 1; response_senders = (0, local 7) ∷ [] }

-- Node 3 asks to join, at the address 1:3.
abbrev joiner : ClusterJoinTicket
joiner = record {
  reserved_id = 3;
  raft_addr = print_addr (record { ip = 1; port = 3 });
  leader_addr = print_addr home;
  peers = [];
}

abbrev join : ConfChangeV2
join = record default_conf_change {
  changes = record { change_type = add_node; node_id = 3 } ∷ [];
  context = 1 ∷ 3 ∷ [];
}

abbrev joined : Peers
joined = record two_peers {
  inner = HashMap.insert 3 (peer_at (record { ip = 1; port = 3 }) voter none) two_peers.inner;
}

abbrev committed_join : Entry
committed_join = record {
  entry_type = entry_conf_change_v2;
  term = 1;
  index = 4;
  data_ = conf_change_v2_codec.encode join;
  context = 0 ∷ [];
  sync_log = false;
}

abbrev with_conf_state : Disk.State Pairs
with_conf_state = (node_env.storage.set_conf_state default_conf_state empty_heed).1

abbrev compacted : Disk.State Pairs
compacted = (node_env.storage.compact 0 with_conf_state).1

abbrev with_snapshot : Disk.State Pairs
with_snapshot = (node_env.storage.create_snapshot (0 ∷ []) 4 1 compacted).1

committed_join-answers_example :
    Commit.handle_committed_config_change_entry node_env committed_join asked_locally ≡ (
      ok tt,
      record asked_locally {
        store = with_snapshot;
        peers = joined;
        response_senders = [];
        replies = config_change_reply (local 7) (join_success (3 ∷ []) joined) ∷ [];
      },
    )
unfolding HashMap.get HashMap.remove HashMap.insert Commit.decode_change Samples.changes
    Samples.addrs Heed.set_conf_state Heed.compact Heed.create_snapshot Heed.committed
    Disk.set_conf_state Disk.conf_state Disk.set_snapshot Disk.write_meta Disk.read_meta
    Disk.compact Disk.delete_below CompactedLogs.save_compacted_entries CompactedLogs.remove_large
    CompactedLogs.append_compacted_logs CompactedLogs.create_missing CompactedLogs.existing_data
    View.decode_pairs Exec.◌>>=◌ Ordered.lookup_pair Ordered.insert_pair Keys.lex_lt
    Samples.read_conf_state Samples.list
committed_join-answers_example =
    committed_join-answers node_env committed_join join (record { ip = 1; port = 3 } ∷ []) 0
      (local 7) asked_locally (record { id = 1; leader_id = 1; applied = 0 }) default_conf_state
      with_conf_state compacted with_snapshot (0 ∷ []) 0 refl refl refl refl refl refl refl refl
      refl refl refl refl refl

-- The request of the joining node waits under the number 0, for the server.
abbrev asked : RaftNodeCore ℕ (Disk.State Pairs) Raw
asked = record (node 1) { response_seq = 1; response_senders = (0, server 9) ∷ [] }

join-committed_example :
    let after = Commit.handle_committed_config_change_entry node_env committed_join asked in
    (received node_env joiner ≡ ok (request_of node_env joiner (record { ip = 1; port = 3 })))
    × ((Dispatch.handle_server_request_msg node_env
          (ServerRequestMsg.change_config
            (request_of node_env joiner (record { ip = 1; port = 3 }))
            9)
          (node 1)).0
        ≡ ok tt)
    × (after.0 ≡ ok tt)
    × (Peers.get 3 after.1.peers ≡ some (peer_at (record { ip = 1; port = 3 }) voter none))
    × (after.1.replies
        ≡ to_server 9 (ServerResponseMsg.config_change (join_success (3 ∷ []) after.1.peers)) ∷ [])
unfolding HashMap.get HashMap.remove HashMap.insert Commit.decode_change Samples.changes
    Samples.addrs Heed.set_conf_state Heed.compact Heed.create_snapshot Heed.committed
    Disk.set_conf_state Disk.conf_state Disk.set_snapshot Disk.write_meta Disk.read_meta
    Disk.compact Disk.delete_below CompactedLogs.save_compacted_entries CompactedLogs.remove_large
    CompactedLogs.append_compacted_logs CompactedLogs.create_missing CompactedLogs.existing_data
    View.decode_pairs Exec.◌>>=◌ Ordered.lookup_pair Ordered.insert_pair Keys.lex_lt
    Samples.read_conf_state Samples.list Strings.parse_addr Strings.read
    Dispatch.handle_server_request_msg ConfChange.into_v2 Requests.handle_confchange_request
    Requests.keep_sender
join-committed_example =
    join-committed node_env joiner (record { ip = 1; port = 3 }) 9 (node 1) asked
      (record { id = 1; leader_id = 1; applied = 0 })
      (record { id = 1; leader_id = 1; applied = 0 }) committed_join default_conf_state
      with_conf_state compacted with_snapshot (0 ∷ []) 0 refl refl refl refl refl refl refl refl
      refl refl refl refl refl refl
