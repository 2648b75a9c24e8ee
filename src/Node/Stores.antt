-- ===== src/Node/Stores.antt =====
-- raftify/src/storage/heed_storage/mod.rs and raftify/src/storage/rocksdb_storage/mod.rs: both
-- stores implement the trait `StableStorage`.
use riteraft_ng.Storage.Heed
use riteraft_ng.Storage.Heed.Core
use riteraft_ng.Storage.Rocks
use riteraft_ng.Node.State.{StableStorage}

abbrev pub heed_store : {Db : Type 0} → Core.Env Db → StableStorage (Core.State Db)
heed_store env = record {
  append = Heed.append env;
  hard_state = Heed.hard_state env;
  set_hard_state = Heed.set_hard_state env;
  set_hard_state_commit = Heed.set_hard_state_commit env;
  conf_state = Heed.conf_state env;
  set_conf_state = Heed.set_conf_state env;
  create_snapshot = Heed.create_snapshot env;
  apply_snapshot = Heed.apply_snapshot env;
  compact = Heed.compact env;
  last_index = Heed.last_index env;
  snapshot = Heed.snapshot env 0 0;
}

abbrev pub rocks_store : {Db : Type 0} → Rocks.Env Db → StableStorage (Rocks.State Db)
rocks_store env = record {
  append = Rocks.append env;
  hard_state = Rocks.hard_state env;
  set_hard_state = Rocks.set_hard_state env;
  set_hard_state_commit = Rocks.set_hard_state_commit env;
  conf_state = Rocks.conf_state env;
  set_conf_state = Rocks.set_conf_state env;
  create_snapshot = Rocks.create_snapshot env;
  apply_snapshot = Rocks.apply_snapshot env;
  compact = Rocks.compact env;
  last_index = Rocks.last_index env;
  snapshot = Rocks.snapshot env;
}
