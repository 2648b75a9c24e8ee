-- ===== src/Storage/Heed/Snapshots.antt =====
-- raftify/src/storage/heed_storage/mod.rs: what the methods on hard state, membership and snapshots
-- write, and what they leave.
use riteraft_ng.Prelude.{ℕ, max, ◌≡◌, ap, ◌∙◌}
use riteraft_ng.Outcome.{ok, map_err}
use riteraft_ng.Exec.{◌>>=◌}
use riteraft_ng.Proto.{HardState, Snapshot}
use riteraft_ng.Storage.Heed.CompactedLogs.{File}
use riteraft_ng.Storage.Heed
use riteraft_ng.Storage.Heed.{committed, dropped}
use riteraft_ng.Storage.Heed.Core.{
  Env, IsWritable, State, Disk, hard_state_key, conf_state_key, last_index_key, snapshot_key,
}
use riteraft_ng.Storage.Heed.Core
use riteraft_ng.Storage.Heed.Meta.{
  write_meta-Writes, read_self, read-other, hard_state_conf_state, hard_state_last_index,
  hard_state_snapshot, conf_state_last_index, conf_state_snapshot, last_index_snapshot,
}

module _ {Db : Type 0} (env : Env Db) (v : IsWritable env) where
  -- On an environment that can be written, with a hard state that can be read, setting the commit
  -- index succeeds, its transaction is dropped, and the store is as it was.
  pub set_hard_state_commit_lost :
      (commit : ℕ) (s : State Db) (h : HardState)
      → Heed.hard_state env s ≡ ok h
      → Heed.set_hard_state_commit env commit s ≡ (ok tt, s)
  unfolding ◌>>=◌ dropped Heed.set_hard_state_commit Heed.hard_state Core.set_hard_state
  set_hard_state_commit_lost commit s h e =
      let (t, p, w) =
        write_meta-Writes env v.db hard_state_key
          (env.hard_state.encode (record h { commit = commit })) s in
      let same : record t { disk = s.disk } ≡ s =
        ap (λ (logs : File). record s { compacted_logs = logs }) w.logs in
      rw (e, p, v.begins s.disk) (ap (λ u. (ok tt, u)) same)

  -- On an environment that can be written, with a hard state that can be read, applying a snapshot
  -- succeeds, also where the snapshot is older than the log or than the one that is stored: it
  -- raises the term to the snapshot's if that is higher, sets the commit and the last
  -- index to the snapshot's, stores its membership and the snapshot itself, and leaves the entries
  -- of the log where they are.
  pub apply_snapshot_lem :
      (x : Snapshot) (s : State Db) (h : HardState)
      → Heed.hard_state env s ≡ ok h
      → (t : State Db) × (Heed.apply_snapshot env x s ≡ (ok tt, t))
        × (Heed.hard_state env t
            ≡ ok (record h { term = max h.term x.metadata.term; commit = x.metadata.index }))
        × (Heed.conf_state env t ≡ ok x.metadata.conf_state)
        × (Heed.last_index env t ≡ ok x.metadata.index)
        × (Heed.snapshot env 0 0 t ≡ ok x)
        × (t.disk.entries_db ≡ s.disk.entries_db)
  unfolding ◌>>=◌ committed Heed.apply_snapshot Heed.hard_state Heed.conf_state Heed.last_index
      Heed.snapshot Core.set_hard_state Core.set_conf_state Core.set_last_index Core.set_snapshot
      Core.hard_state Core.conf_state Core.last_index Core.snapshot
  apply_snapshot_lem x s h e =
      let h' : HardState = record h {
        term = max h.term x.metadata.term;
        commit = x.metadata.index;
      } in
      let (t1, e1, w1) = write_meta-Writes env v.db hard_state_key (env.hard_state.encode h') s in
      let (t2, e2, w2) =
        write_meta-Writes env v.db conf_state_key (env.conf_state.encode x.metadata.conf_state)
          t1 in
      let (t3, e3, w3) =
        write_meta-Writes env v.db last_index_key (env.number.encode x.metadata.index) t2 in
      let (t4, e4, w4) = write_meta-Writes env v.db snapshot_key (env.snapshot.encode x) t3 in
      (
        t4,
        rw (v.begins s.disk, e, e1, e2, e3, e4) (rw (v.commits t4.disk)),
        read-other env env.hard_state _ _ w4 hard_state_snapshot
            ∙ read-other env env.hard_state _ _ w3 hard_state_last_index
            ∙ read-other env env.hard_state _ _ w2 hard_state_conf_state
            ∙ read_self env env.hard_state _ _ _ w1,
        read-other env env.conf_state _ _ w4 conf_state_snapshot
            ∙ read-other env env.conf_state _ _ w3 conf_state_last_index
            ∙ read_self env env.conf_state _ _ _ w2,
        ap (map_err _) (
            read-other env env.number _ _ w4 last_index_snapshot
            ∙ read_self env env.number _ _ _ w3),
        ap (map_err _) (read_self env env.snapshot _ _ _ w4),
        w4.entries ∙ w3.entries ∙ w2.entries ∙ w1.entries,
      )
