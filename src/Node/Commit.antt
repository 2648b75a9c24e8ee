-- ===== src/Node/Commit.antt =====
-- raftify/src/raft_node/mod.rs: `make_snapshot` and the handlers of committed entries.
use riteraft_ng.Prelude.{
  ℕ, ◌+◌, Bool, true, false, not, Option, none, some, List, [], ◌∷◌, map, ltb, ◌==◌, if◌then◌else◌,
  get_elem?, is_empty, all,
}
use riteraft_ng.Outcome.{Outcome, ok, err, panic, or_fail, other_error, ◌>>=◌ as bind}
use riteraft_ng.Exec.{Exec, lift, gets, asks, pure, abort, modify, ◌>>=◌, ◌>>◌}
use riteraft_ng.HashMap
use riteraft_ng.HashMap.{HashMap}
use riteraft_ng.Net.{SocketAddr, text}
use riteraft_ng.Peers
use riteraft_ng.Peers.{Peers, InitialRole, voter, learner}
use riteraft_ng.Proto.{
  ConfChangeSingle, ConfChangeType, add_node, remove_node, add_learner_node, ConfChangeV2,
  ConfState, Entry, EntryType, entry_normal, entry_conf_change, entry_conf_change_v2,
}
use riteraft_ng.ConfChange.{to_confchange_v2}
use riteraft_ng.Node.Messages.{
  ConfChangeResponseResult, join_success, remove_success, ResponseSender, local, server, propose,
  config_change, success,
}
use riteraft_ng.Node.State.{
  Env, RaftNodeCore, on_store, on_fsm, on_raft, send_local, send_server, get_id,
}

abbrev pub is_remove_node : ConfChangeType → Bool
is_remove_node remove_node = true
is_remove_node _ = false

abbrev pub is_remove : ConfChangeSingle → Bool
is_remove c = is_remove_node c.change_type

module _ {F S R : Type 0} (env : Env F S R) where
  unfoldable pub make_snapshot : ℕ → ℕ → Exec (RaftNodeCore F S R) Unit
  make_snapshot index term = do
    modify (λ s. record s { last_snapshot_created = s.now })
    snapshot_data ← on_fsm env.fsm.snapshot
    last_applied ← gets (λ s. env.raft.applied s.raw_node)
    on_store (env.storage.compact last_applied)
    on_store (env.storage.create_snapshot snapshot_data index term)

  -- `response_senders.remove`, which hands the sender back.
  unfoldable pub take_sender : ℕ → Exec (RaftNodeCore F S R) (Option ResponseSender)
  take_sender seq s = (
    ok (HashMap.get seq s.response_senders),
    record s { response_senders = HashMap.remove seq s.response_senders },
  )

  -- `if let Some(sender) = response_senders.remove(…)`, and the answer.
  abbrev pub answer_waiting :
      ℕ → (Option ResponseSender → Exec (RaftNodeCore F S R) Unit) → Exec (RaftNodeCore F S R) Unit
  answer_waiting seq answer = take_sender seq >>= answer

  abbrev pub answer_propose : Option ResponseSender → Exec (RaftNodeCore F S R) Unit
  answer_propose none = pure tt
  answer_propose (some (local tx)) = send_local tx (propose success)
  answer_propose (some (server tx)) = send_server tx (propose success)

  abbrev pub snapshot_after : Option ℕ → ℕ → ℕ → Exec (RaftNodeCore F S R) Unit
  snapshot_after none index term s = (ok tt, s)
  snapshot_after (some interval) index term s =
      if ltb (s.last_snapshot_created + interval) s.now
      then make_snapshot index term s
      else (ok tt, s)

  abbrev pub snapshot_if_due : ℕ → ℕ → Exec (RaftNodeCore F S R) Unit
  snapshot_if_due index term s = snapshot_after s.config.snapshot_interval index term s

  unfoldable pub handle_committed_normal_entry : Entry → Exec (RaftNodeCore F S R) Unit
  handle_committed_normal_entry entry = do
    response_seq ← lift (or_fail (env.seq.decode entry.context) other_error)
    on_fsm (env.fsm.apply entry.data_)
    answer_waiting response_seq answer_propose
    snapshot_if_due entry.index entry.term

  -- The change in the entry, by the entry's type; the normal type is `unreachable!`.
  unfoldable pub decode_change : Entry → Outcome ConfChangeV2
  decode_change entry = elim entry.entry_type [
    | entry_normal ↦ panic
    | entry_conf_change ↦
        bind (or_fail (env.conf_change.decode entry.data_) other_error)
          (λ c. ok (to_confchange_v2 c))
    | entry_conf_change_v2 ↦ or_fail (env.conf_change_v2.decode entry.data_) other_error
  ]

  abbrev pub set_peers : Outcome Peers → Exec (RaftNodeCore F S R) Unit
  set_peers (ok p) s = (ok tt, record s { peers = p })
  set_peers (err e) s = (err e, s)
  set_peers panic s = (panic, s)

  abbrev pub on_peers : (Peers → Outcome Peers) → Exec (RaftNodeCore F S R) Unit
  on_peers f s = set_peers (f s.peers) s

  -- `addrs[cc_idx]`, which panics out of range, and the peer added under it.
  abbrev pub add_member : ℕ → Option SocketAddr → InitialRole → Exec (RaftNodeCore F S R) Unit
  add_member id none role = abort
  add_member id (some a) role =
      on_peers (Peers.add_peer env.net id (text (env.net.to_string a)) (some role))

  abbrev pub change_member : ConfChangeType → ℕ → Option SocketAddr → Exec (RaftNodeCore F S R) Unit
  change_member add_node id a s = add_member id a voter s
  change_member add_learner_node id a s = add_member id a learner s
  change_member remove_node id a s =
      if id == get_id env s
      then (ok tt, record s { should_exit = true })
      else (ok tt, record s { peers = Peers.remove id s.peers })

  -- One turn of the loop over the changes.
  abbrev pub apply_member : List SocketAddr → ℕ → ConfChangeSingle → Exec (RaftNodeCore F S R) Unit
  apply_member addrs cc_idx c = change_member c.change_type c.node_id (get_elem? addrs cc_idx)

  unfoldable pub apply_members :
      List SocketAddr → ℕ → List ConfChangeSingle → Exec (RaftNodeCore F S R) Unit
  apply_members addrs cc_idx [] = pure tt
  apply_members addrs cc_idx (c ∷ cs) = do
    apply_member addrs cc_idx c
    apply_members addrs (cc_idx + 1) cs

  -- What the proposer is answered; the mixed cases are `unimplemented!`.
  unfoldable pub change_response : List ConfChangeSingle → Peers → Outcome ConfChangeResponseResult
  change_response cs peers =
      if all (λ c. not (is_remove c)) cs
      then ok (join_success (map (λ (c : ConfChangeSingle). c.node_id) cs) peers)
      else if all is_remove cs
      then ok remove_success
      else panic

  abbrev pub answer_change :
      List ConfChangeSingle → Option ResponseSender → Exec (RaftNodeCore F S R) Unit
  answer_change cs none = pure tt
  answer_change cs (some (local tx)) = do
    r ← asks (λ s. change_response cs s.peers)
    send_local tx (config_change r)
  answer_change cs (some (server tx)) = do
    r ← asks (λ s. change_response cs s.peers)
    send_server tx (config_change r)

  -- A refused change is logged, and the entry still answered.
  abbrev pub after_change : Entry → Outcome ConfState → Exec (RaftNodeCore F S R) Unit
  after_change entry (ok conf_state) = do
    on_store (env.storage.set_conf_state conf_state)
    make_snapshot entry.index entry.term
  after_change entry (err e) = pure tt
  after_change entry panic = abort

  abbrev pub apply_change : ConfChangeV2 → Entry → Exec (RaftNodeCore F S R) Unit
  apply_change change entry s =
      let (r, t) = env.raft.apply_conf_change change s.store s.raw_node in
      after_change entry r (record s { raw_node = t })

  -- The entry that leaves a joint configuration has no context, and no client waits for it.
  unfoldable pub leave_joint : ConfChangeV2 → Exec (RaftNodeCore F S R) Unit
  leave_joint change = do
    cs ← on_raft (env.raft.apply_conf_change change)
    on_store (env.storage.set_conf_state cs)

  unfoldable pub change_members : ConfChangeV2 → Entry → Exec (RaftNodeCore F S R) Unit
  change_members change entry = do
    addrs ← lift (or_fail (env.addrs.decode change.context) other_error)
    apply_members addrs 0 change.changes
    apply_change change entry
    response_seq ← lift (or_fail (env.seq.decode entry.context) other_error)
    answer_waiting response_seq (answer_change change.changes)

  unfoldable pub handle_committed_config_change_entry : Entry → Exec (RaftNodeCore F S R) Unit
  handle_committed_config_change_entry entry = do
    change ← lift (decode_change entry)
    if is_empty entry.context then leave_joint change else change_members change entry

  -- One turn of the loop, by the entry's type.
  abbrev pub handle_typed_entry : EntryType → Entry → Exec (RaftNodeCore F S R) Unit
  handle_typed_entry entry_normal entry =
      if is_empty entry.data_ then pure tt else handle_committed_normal_entry entry
  handle_typed_entry entry_conf_change entry = handle_committed_config_change_entry entry
  handle_typed_entry entry_conf_change_v2 entry = handle_committed_config_change_entry entry

  unfoldable pub handle_committed_entries : List Entry → Exec (RaftNodeCore F S R) Unit
  handle_committed_entries [] = pure tt
  handle_committed_entries (e ∷ es) = do
    handle_typed_entry e.entry_type e
    handle_committed_entries es
