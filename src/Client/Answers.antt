-- ===== src/Client/Answers.antt =====
-- raftify/src/raft_node/mod.rs: what the node sends for a message of `RaftNode`, and what the method
-- makes of it.
use riteraft_ng.Prelude.{
  ℕ, ◌≡◌, true, Option, none, some, List, [], ◌∷◌, ◌++◌, arith, ◌==◌, if◌then◌else◌,
}
use riteraft_ng.Outcome.{ok}
use riteraft_ng.Node.Messages.{LocalRequestMsg, LocalResponseMsg}
use riteraft_ng.Node.State
use riteraft_ng.Node.State.{
  Env, RaftNodeCore, Reply, to_local, to_server, send_local, on_raft, change_raft,
}
use riteraft_ng.Node.Dispatch.{handle_local_request_msg}
use riteraft_ng.Client.{Awaited, answered, dropped}
use riteraft_ng.Client

module _ {F S R : Type 0} where
  -- What was put into a channel.
  abbrev pub answer_on : ℕ → List (Reply F S R) → Option (LocalResponseMsg F S R)
  answer_on tx [] = none
  answer_on tx (to_local t m ∷ rs) = if t == tx then some m else answer_on tx rs
  answer_on tx (to_server t m ∷ rs) = answer_on tx rs

  pub answer_on-append :
      (tx : ℕ) (rs : List (Reply F S R)) (m : LocalResponseMsg F S R)
      → answer_on tx rs ≡ none
      → answer_on tx (rs ++ to_local tx m ∷ []) ≡ some m
  answer_on-append tx [] m h = ground arith
  answer_on-append tx (to_local t n ∷ rs) m h = ground (arith, answer_on-append tx rs m)
  answer_on-append tx (to_server t n ∷ rs) m h = answer_on-append tx rs m h

  abbrev pub awaited : Option (LocalResponseMsg F S R) → Awaited F S R
  awaited (some m) = answered m
  awaited none = dropped

  -- What a user who waits on a channel receives from a node that handled the message and keeps no
  -- sender for it.
  abbrev pub received : ℕ → RaftNodeCore F S R → Awaited F S R
  received tx t = awaited (answer_on tx t.replies)

module _ {F S R : Type 0} (env : Env F S R) where
  -- Where the receiver is there and nothing was sent on the channel before, each method of `RaftNode`
  -- that asks for a part of the node's state returns that part of the state in which the node
  -- handles its message.
  pub queries-state :
      (tx : ℕ) (s : RaftNodeCore F S R)
      → s.receivers tx ≡ true
      → answer_on tx s.replies ≡ none
      → let ask = λ (m : LocalRequestMsg). received tx (handle_local_request_msg env m s).1 in
        (Client.is_leader ask tx ≡ ok (State.is_leader env s))
        × (Client.get_id ask tx ≡ ok (State.get_id env s))
        × (Client.get_leader_id ask tx ≡ ok (State.get_leader_id env s))
        × (Client.get_peers ask tx ≡ ok s.peers)
        × (Client.get_cluster_size ask tx ≡ ok (env.raft.cluster_size s.raw_node))
        × (Client.state_machine ask tx ≡ ok s.fsm)
        × (Client.storage ask tx ≡ ok s.store)
        × (Client.get_raw_node ask tx ≡ ok s.raw_node)
  unfolding handle_local_request_msg Client.is_leader Client.get_id Client.get_leader_id
      Client.get_peers Client.get_cluster_size Client.state_machine Client.storage
      Client.get_raw_node
  queries-state tx s r n =
      let sent = λ (m : LocalResponseMsg F S R). answer_on-append tx s.replies m n in
      (
        rw (r, sent (LocalResponseMsg.is_leader (State.is_leader env s))),
        rw (r, sent (LocalResponseMsg.get_id (State.get_id env s))),
        rw (r, sent (LocalResponseMsg.get_leader_id (State.get_leader_id env s))),
        rw (r, sent (LocalResponseMsg.get_peers s.peers)),
        rw (r, sent (LocalResponseMsg.get_cluster_size (env.raft.cluster_size s.raw_node))),
        rw (r, sent (LocalResponseMsg.get_state_machine s.fsm)),
        rw (r, sent (LocalResponseMsg.get_storage s.store)),
        rw (r, sent (LocalResponseMsg.get_raw_node s.raw_node)),
      )
