-- ===== src/Client/Mismatch.antt =====
-- raftify/src/raft_node/mod.rs: a change of the membership that waits, and an entry of another node
-- with the same number.

use riteraft_ng.Prelude.{ℕ, ◌≡◌, ◌∙◌, true, false, none, some, [], ◌∷◌, ◌++◌, arith}
use riteraft_ng.Outcome.{ok, panic}
use riteraft_ng.Exec.{◌>>=◌}
use riteraft_ng.HashMap
use riteraft_ng.HashMap.{get-insert}
use riteraft_ng.Proto.{Bytes, ConfChangeV2, Entry}
use riteraft_ng.ConfChange.{ConfChangeRequest, from_v2, into_v2}
use riteraft_ng.Node.Messages
use riteraft_ng.Node.Messages.{LocalRequestMsg, local, success}
use riteraft_ng.Node.State.{Env, RaftNodeCore, to_local, is_leader}
use riteraft_ng.Node.Commit.{handle_committed_normal_entry}
use riteraft_ng.Node.Requests.{handle_confchange_request, keep_sender}
use riteraft_ng.Node.Dispatch.{handle_local_request_msg}
use riteraft_ng.Node.Answers.{commit-answers}
use riteraft_ng.Client
use riteraft_ng.Client.{answered}
use riteraft_ng.Client.Reads.{Client}

module _ {F S R : Type 0} (env : Env F S R) where
  -- A leader with no change pending takes a change of the membership of its user, which raft-rs
  -- accepts, and keeps the channel under its next number. Where it still waits when a normal entry
  -- with that number, such as the proposal of another node, is committed, applies, and no snapshot
  -- interval is set, the user is sent the answer to a proposal, and `RaftNode::change_config` panics
  -- on it.
  pub change_config-mismatched :
      (v : Client) (change c : ConfChangeV2) (request : ConfChangeRequest) (tx : ℕ)
      (s u : RaftNodeCore F S R) (r : R) (e : Entry) (out : Bytes) (f : F)
      → from_v2 v.addrs change ≡ ok request
      → into_v2 env.addrs request ≡ ok c
      → env.raft.has_pending_conf s.raw_node ≡ false
      → is_leader env s ≡ true
      → env.raft.propose_conf_change (env.seq.encode s.response_seq) c s.store s.raw_node
        ≡ (ok tt, r)
      → e.context ≡ env.seq.encode s.response_seq
      → HashMap.get s.response_seq u.response_senders
        ≡ HashMap.get s.response_seq
            (handle_local_request_msg env
              (LocalRequestMsg.change_config request tx)
              s).1.response_senders
      → env.fsm.apply e.data_ u.fsm ≡ (ok out, f)
      → u.receivers tx ≡ true
      → u.config.snapshot_interval ≡ none
      → let answer : Messages.LocalResponseMsg F S R = Messages.LocalResponseMsg.propose success in
        ((handle_local_request_msg env (LocalRequestMsg.change_config request tx) s).0 ≡ ok tt)
        × (handle_committed_normal_entry env e u ≡ (
          ok tt,
          record u {
            fsm = f;
            response_senders = HashMap.remove s.response_seq u.response_senders;
            replies = u.replies ++ to_local tx answer ∷ [];
          },
        ))
        × (Client.change_config (λ m. answered answer) tx v change ≡ panic)
  unfolding handle_local_request_msg handle_confchange_request keep_sender Client.change_config
      ◌>>=◌
  change_config-mismatched v change c request tx s u r e out f q d p l k x w a rec i =
      let kept : HashMap.get s.response_seq
            (handle_local_request_msg env (LocalRequestMsg.change_config request tx)
              s).1.response_senders
          ≡ some (local tx) =
        rw (d, p, l)
          (ground
            (arith, get-insert s.response_seq s.response_seq (local tx) s.response_senders)) in
      (
        rw (d, p, l, k),
        commit-answers env e s.response_seq (local tx) u out f
            (rw (x, env.seq.decode-encode s.response_seq)) a (w ∙ kept) rec i,
        rw q,
      )
