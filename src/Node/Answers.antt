-- ===== src/Node/Answers.antt =====
-- raftify/src/raft_node/mod.rs: what the one who asked is answered.
use riteraft_ng.Prelude.{ℕ, ◌≡◌, ◌∙◌, true, none, some, [], ◌∷◌, ◌++◌, arith}
use riteraft_ng.Outcome.{ok}
use riteraft_ng.Exec.{◌>>=◌}
use riteraft_ng.HashMap
use riteraft_ng.HashMap.{get-insert}
use riteraft_ng.Proto.{Bytes, Entry}
use riteraft_ng.Node.Messages
use riteraft_ng.Node.Messages.{ResponseSender, local, server, ResponseResult, success}
use riteraft_ng.Node.State.{Env, RaftNodeCore, Reply, to_local, to_server, is_leader}
use riteraft_ng.Node.Commit
use riteraft_ng.Node.Commit.{handle_committed_normal_entry}
use riteraft_ng.Node.Requests
use riteraft_ng.Node.Requests.{handle_propose_request, handle_confchange_request}

abbrev pub channel : ResponseSender → ℕ
channel (local tx) = tx
channel (server tx) = tx

module _ {F S R : Type 0} where
  abbrev pub propose_reply : ResponseSender → ResponseResult → Reply F S R
  propose_reply (local tx) r = to_local tx (Messages.LocalResponseMsg.propose r)
  propose_reply (server tx) r = to_server tx (Messages.ServerResponseMsg.propose r)

  abbrev pub config_change_reply : ResponseSender → Messages.ConfChangeResponseResult → Reply F S R
  config_change_reply (local tx) r = to_local tx (Messages.LocalResponseMsg.config_change r)
  config_change_reply (server tx) r = to_server tx (Messages.ServerResponseMsg.config_change r)

module _ {F S R : Type 0} (env : Env F S R) where
  -- A committed entry whose context decodes to the number of a waiting request is applied, and that
  -- request is answered with success, whoever proposed the entry and whatever its data are; the
  -- request waits no longer. This is so where the state machine applies the data, the receiver is
  -- still there and no snapshot interval is set.
  pub commit-answers :
      (e : Entry) (seq : ℕ) (x : ResponseSender) (s : RaftNodeCore F S R) (out : Bytes) (f : F)
      → env.seq.decode e.context ≡ some seq
      → env.fsm.apply e.data_ s.fsm ≡ (ok out, f)
      → HashMap.get seq s.response_senders ≡ some x
      → s.receivers (channel x) ≡ true
      → s.config.snapshot_interval ≡ none
      → handle_committed_normal_entry env e s ≡ (
        ok tt,
        record s {
          fsm = f;
          response_senders = HashMap.remove seq s.response_senders;
          replies = s.replies ++ propose_reply x success ∷ [];
        },
      )
  unfolding handle_committed_normal_entry Commit.take_sender ◌>>=◌
  commit-answers e seq (local tx) s out f d a w r i = rw (d, a, w, r, i)
  commit-answers e seq (server tx) s out f d a w r i = rw (d, a, w, r, i)

  -- A proposal that raft-rs takes from a leader is answered with success when an entry with its
  -- number is committed, if it still waits then, the state machine applies the entry, the receiver
  -- is still there and no snapshot interval is set.
  pub propose-commit :
      (p : Bytes) (x : ResponseSender) (s u : RaftNodeCore F S R) (r : R) (e : Entry) (out : Bytes)
      (f : F)
      → is_leader env s ≡ true
      → env.raft.propose (env.seq.encode s.response_seq) p s.store s.raw_node ≡ (ok tt, r)
      → e.context ≡ env.seq.encode s.response_seq
      → HashMap.get s.response_seq u.response_senders
        ≡ HashMap.get s.response_seq (handle_propose_request env p x s).1.response_senders
      → env.fsm.apply e.data_ u.fsm ≡ (ok out, f)
      → u.receivers (channel x) ≡ true
      → u.config.snapshot_interval ≡ none
      → ((handle_propose_request env p x s).0 ≡ ok tt)
        × (handle_committed_normal_entry env e u ≡ (
          ok tt,
          record u {
            fsm = f;
            response_senders = HashMap.remove s.response_seq u.response_senders;
            replies = u.replies ++ propose_reply x success ∷ [];
          },
        ))
  unfolding handle_propose_request Requests.keep_sender ◌>>=◌
  propose-commit p x s u r e out f l q c w a rec i =
      let kept : HashMap.get s.response_seq (handle_propose_request env p x s).1.response_senders
          ≡ some x =
        rw l (ground (arith, get-insert s.response_seq s.response_seq x s.response_senders)) in
      (
        rw (l, q),
        commit-answers e s.response_seq x u out f (rw (c, env.seq.decode-encode s.response_seq)) a
            (w ∙ kept) rec i,
      )
