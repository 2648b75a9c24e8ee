-- ===== src/Server/NoLeader.antt =====
-- raftify/src/raft_server.rs and raftify/src/raft_node/mod.rs: what is dropped where no leader is known.
use riteraft_ng.Prelude.{
  ℕ, String, ◌≡◌, true, false, Option, none, some, List, [], ◌∷◌, ◌==◌, if◌then◌else◌,
}
use riteraft_ng.Outcome.{ok, err, panic, recv_error}
use riteraft_ng.Proto.{Bytes}
use riteraft_ng.Node.Messages.{
  LocalRequestMsg, ServerRequestMsg, ServerResponseMsg, request_id, propose,
}
use riteraft_ng.Node.State
use riteraft_ng.Node.State.{Env, RaftNodeCore, Reply, to_local, to_server, send_server, on_raft}
use riteraft_ng.Node.Requests
use riteraft_ng.Node.Dispatch.{
  handle_server_request_msg, handle_local_request_msg, handle_request_id,
}
use riteraft_ng.Server.{Server, Awaited, answered, dropped}
use riteraft_ng.Server.Methods
use riteraft_ng.Client
use riteraft_ng.Client.Reads.{Client}
use riteraft_ng.Client.Answers

abbrev pub awaited : Option ServerResponseMsg → Awaited
awaited (some m) = answered m
awaited none = dropped

module _ {F S R : Type 0} where
  -- What was put into a channel.
  abbrev pub answer_on : ℕ → List (Reply F S R) → Option ServerResponseMsg
  answer_on tx [] = none
  answer_on tx (to_server t m ∷ rs) = if t == tx then some m else answer_on tx rs
  answer_on tx (to_local t m ∷ rs) = answer_on tx rs

  -- What the server receives from a node that handled the message and keeps no sender for it.
  abbrev pub received : ℕ → RaftNodeCore F S R → Awaited
  received tx t = awaited (answer_on tx t.replies)

module _ {F S R : Type 0} (env : Env F S R) where
  -- A node that knows no leader drops a proposal and a request for an identifier without an answer,
  -- and changes nothing. The server that waits for the answer then panics, and the user of
  -- `RaftNode` is told that nothing was received, where nothing was sent on the channel before.
  pub no_leader-drops :
      (s : RaftNodeCore F S R) (p : Bytes) (a : String) (tx : ℕ) (v : Server) (w : Client)
      → State.is_leader env s ≡ false
      → (State.get_leader_id env s == 0) ≡ true
      → answer_on tx s.replies ≡ none
      → Answers.answer_on tx s.replies ≡ none
      → let ask = λ (m : ServerRequestMsg). received tx (handle_server_request_msg env m s).1 in
        let ask_local =
          λ (m : LocalRequestMsg). Answers.received tx (handle_local_request_msg env m s).1 in
        (handle_server_request_msg env (propose p tx) s ≡ (ok tt, s))
        × (handle_server_request_msg env (request_id a tx) s ≡ (ok tt, s))
        × (handle_local_request_msg env (LocalRequestMsg.propose p tx) s ≡ (ok tt, s))
        × (Methods.propose ask tx v p ≡ panic)
        × (Methods.request_id ask tx v a ≡ panic)
        × (Client.propose ask_local tx w p ≡ err recv_error)
  unfolding handle_server_request_msg handle_local_request_msg handle_request_id
      Requests.handle_propose_request Methods.propose Methods.request_id Client.propose
  no_leader-drops s p a tx v w l z n m =
      (rw (l, z), rw (l, z), rw (l, z), rw (l, z, n), rw (l, z, n), rw (l, z, m))
