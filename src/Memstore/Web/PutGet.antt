-- ===== src/Memstore/Web/PutGet.antt =====
-- examples/memstore/src/web_server_api.rs and raftify/src/raft_node/mod.rs: what is put is got, once it
-- is committed.
use riteraft_ng.Prelude.{ℕ, String, ◌≡◌, refl, ap, ◌∙◌, true, none, arith}
use riteraft_ng.Outcome.{ok}
use riteraft_ng.HashMap
use riteraft_ng.HashMap.{get-insert}
use riteraft_ng.Proto.{Codec, Entry}
use riteraft_ng.Node.Messages.{LocalResponseMsg, ResponseResult, local}
use riteraft_ng.Node.State.{Env, RaftNodeCore, is_leader}
use riteraft_ng.Node.Commit.{handle_committed_normal_entry}
use riteraft_ng.Node.Requests.{handle_propose_request}
use riteraft_ng.Node.Answers.{propose-commit}
use riteraft_ng.Client
use riteraft_ng.Client.Reads
use riteraft_ng.Client.Reads.{Client}
use riteraft_ng.Client.Answers.{answer_on, answer_on-append, received}
use riteraft_ng.Memstore
use riteraft_ng.Memstore.{HashStore, LogEntry, hash_store, insert}
use riteraft_ng.Memstore.Replay.{apply-encode}
use riteraft_ng.Memstore.Web
use riteraft_ng.Memstore.Web.{success}

module _ (log_entry : Codec LogEntry) (table : Codec HashStore) {S R : Type 0}
    (env : Env HashStore S R) where
  -- A leader whose state machine is the example's takes the proposal of a PUT, where raft-rs does.
  -- When the entry with its data and its number is committed, while it waits, its receiver is there,
  -- nothing was sent on its channel before and no snapshot interval is set, the PUT answers "OK",
  -- and a GET of the key answers with the value that was put.
  pub get-put :
      (v : Client) (key : ℕ) (value : String) (tx : ℕ) (s u : RaftNodeCore HashStore S R) (r : R)
      (e : Entry)
      → env.fsm ≡ hash_store log_entry table
      → is_leader env s ≡ true
      → env.raft.propose
          (env.seq.encode s.response_seq)
          (log_entry.encode (insert key value))
          s.store
          s.raw_node
        ≡ (ok tt, r)
      → e.data_ ≡ log_entry.encode (insert key value)
      → e.context ≡ env.seq.encode s.response_seq
      → HashMap.get s.response_seq u.response_senders
        ≡ HashMap.get s.response_seq
            (handle_propose_request env
              (log_entry.encode (insert key value))
              (local tx)
              s).1.response_senders
      → u.receivers tx ≡ true
      → answer_on tx u.replies ≡ none
      → u.config.snapshot_interval ≡ none
      → let after = handle_committed_normal_entry env e u in
        (after.0 ≡ ok tt)
        × (Web.put (λ m. received tx after.1) tx v log_entry key value ≡ ok "OK")
        × (Web.get after.1.fsm key ≡ success value)
  unfolding Web.put Web.get Memstore.get Client.propose Reads.propose_result
  get-put v key value tx s u r e m l q d c w rec n i =
      let applied : env.fsm.apply e.data_ u.fsm
          ≡ (ok (log_entry.encode (insert key value)), HashMap.insert key value u.fsm) =
        ap (λ x. x.apply e.data_ u.fsm) m
        ∙ ap (λ b. Memstore.apply log_entry table b u.fsm) d
        ∙ apply-encode log_entry table (insert key value) u.fsm in
      let (_, done) =
        propose-commit env (log_entry.encode (insert key value)) (local tx) s u r e _ _ l q c w
          applied rec i in
      let answer =
        answer_on-append tx u.replies (LocalResponseMsg.propose ResponseResult.success) n in
      (
        ap (λ z. z.0) done,
        rw done (rw answer refl),
        rw done (ground (arith, get-insert key key value u.fsm)),
      )
