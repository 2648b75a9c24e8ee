-- ===== src/Memstore/Nodes.antt =====
-- examples/memstore/src/state_machine.rs and raftify/src/raft_node/mod.rs: a node whose state machine
-- is the example's.
mod Examples
use riteraft_ng.Prelude.{ℕ, ◌≡◌, refl, sym, ap, ◌∙◌, List, [], ◌∷◌, map}
use riteraft_ng.Outcome.{ok}
use riteraft_ng.Exec.{◌>>=◌, ◌>>◌}
use riteraft_ng.Proto.{Codec, Entry}
use riteraft_ng.Node.State.{Env, RaftNodeCore}
use riteraft_ng.Node.Commit.{handle_committed_entries}
use riteraft_ng.Node.Replication
use riteraft_ng.Node.Replication.{commands, committed_entries-apply_all}
use riteraft_ng.Memstore
use riteraft_ng.Memstore.{HashStore, LogEntry, hash_store}
use riteraft_ng.Memstore.Replay.{
  apply-encode, apply_all, apply_all-replay, get-replay, last_value, replay,
}

module _ (log_entry : Codec LogEntry) (table : Codec HashStore) where
  encoded-apply_all :
      (cs : List LogEntry) (f : HashStore)
      → Replication.apply_all (hash_store log_entry table) (map log_entry.encode cs) f
        ≡ apply_all log_entry table cs f
  unfolding Replication.apply_all apply_all ◌>>=◌
  encoded-apply_all [] f = refl
  encoded-apply_all (c ∷ cs) f =
      rw (apply-encode log_entry table c f) (encoded-apply_all cs (Memstore.apply_entry c f))

  -- A node whose state machine is the example's, and which handles committed entries without an
  -- error: where the data of those that are no membership changes and not empty are encoded
  -- `LogEntry`s, each key reads afterwards as the value that was inserted last by them, or as before
  -- if none did; whatever the store, raft-rs, the peers and the requests that wait are.
  pub handle_committed_entries-last_value :
      {S R : Type 0} (env : Env HashStore S R) (es : List Entry) (cs : List LogEntry)
      (s t : RaftNodeCore HashStore S R) (k : ℕ)
      → env.fsm ≡ hash_store log_entry table
      → commands es ≡ map log_entry.encode cs
      → handle_committed_entries env es s ≡ (ok tt, t)
      → Memstore.get k t.fsm ≡ last_value k cs (Memstore.get k s.fsm)
  unfolding Memstore.snapshot
  handle_committed_entries-last_value env es cs s t k m c h =
      let same = λ (f : HashStore). ap (λ x. (x.snapshot f).1) m in
      let handled = committed_entries-apply_all env same es s t h in
      let given : Replication.apply_all env.fsm (commands es) s.fsm
          ≡ Replication.apply_all (hash_store log_entry table) (map log_entry.encode cs) s.fsm =
        ap (λ x. Replication.apply_all x (commands es) s.fsm) m
        ∙ ap (λ ds. Replication.apply_all (hash_store log_entry table) ds s.fsm) c in
      let replayed =
        sym handled
        ∙ given
        ∙ encoded-apply_all cs s.fsm
        ∙ apply_all-replay log_entry table cs s.fsm in
      ap (λ p. Memstore.get k p.1) replayed ∙ get-replay log_entry table k cs s.fsm
