-- ===== src/Samples/Busy.antt =====
-- A raft-rs that always has a snapshot and an entry ready, and a counting state machine that is
-- bounded.
use riteraft_ng.Prelude.{ℕ, ◌+◌, true, none, [], ◌∷◌, ltb, if◌then◌else◌, length}
use riteraft_ng.Outcome.{ok}
use riteraft_ng.Proto.{Snapshot, default_snapshot}
use riteraft_ng.Storage.Ordered.{Pairs}
use riteraft_ng.Storage.Heed.Core as Heed
use riteraft_ng.Node.State.{Env, StateMachine, RawNode}
use riteraft_ng.Samples.Surroundings.{Raw, entry, node_env, raw_node}

abbrev pub at_most_9 : ℕ → ℕ
at_most_9 n = if ltb n 9 then n else 9

abbrev bounded : StateMachine ℕ
bounded = record {
  apply = λ bytes n. (ok [], at_most_9 (n + length bytes));
  snapshot = λ n. (ok (n ∷ []), n);
  restore = λ bytes n. (ok tt, at_most_9 (length bytes));
}

abbrev snapshot : Snapshot
snapshot = record default_snapshot {
  data_ = 1 ∷ 2 ∷ 3 ∷ [];
  metadata = record default_snapshot.metadata { index = 3; term = 1 };
}

abbrev busy : {S : Type 0} → RawNode S Raw
busy = record raw_node {
  has_ready = λ s r. true;
  ready = λ s r. (
    record {
      messages = [];
      snapshot = snapshot;
      committed_entries = entry 4 5 ∷ [];
      entries = [];
      hs = none;
      persisted_messages = [];
    },
    r,
  );
  advance = λ x s r.
      (record { commit_index = none; messages = []; committed_entries = entry 5 6 ∷ [] }, r);
}

abbrev pub busy_env : Env ℕ (Heed.State Pairs) Raw
busy_env = record node_env { fsm = bounded; raft = busy }
