-- ===== src/Node/Loop.antt =====
-- raftify/src/raft_node/mod.rs: `send_message`, `on_ready` and the loop of `run`.
use riteraft_ng.Prelude.{
  ℕ, ◌+◌, ◌-◌, Bool, true, not, Option, none, some, List, [], ◌∷◌, ◌++◌, ltb, if◌then◌else◌,
  is_empty,
}
use riteraft_ng.Outcome.{ok, err, panic}
use riteraft_ng.Exec.{Exec, pure, when, modify, ◌>>=◌, ◌>>◌}
use riteraft_ng.HashMap
use riteraft_ng.HashMap.{HashMap}
use riteraft_ng.Peers
use riteraft_ng.Peers.{Peer, Peers}
use riteraft_ng.Proto.{Entry, HardState, Message, Snapshot}
use riteraft_ng.Node.Messages.{LocalRequestMsg, ServerRequestMsg, SelfMessage, report_unreachable}
use riteraft_ng.Node.State.{Env, RaftNodeCore, Ready, LightReady, on_store, on_fsm, change_raft}
use riteraft_ng.Node.Commit.{handle_committed_entries}
use riteraft_ng.Node.Dispatch.{
  handle_local_request_msg, handle_self_message, handle_server_request_msg,
}

-- The loop waits for one message, and goes on without one when it waited a tick or a channel was
-- closed.
pub data Event : Type 0 where
  from_self : SelfMessage → Event
  from_server : ServerRequestMsg → Event
  from_local : LocalRequestMsg → Event
  nothing : Event

-- `run`'s variables: the core and the time left to the next tick.
pub record Running (F S R : Type 0) : Type 0 where
  pub core : RaftNodeCore F S R
  pub tick_timer : ℕ

module _ {F S R : Type 0} (env : Env F S R) where
  -- The client of a peer, which is opened if there is none yet.
  unfoldable pub client_of : ℕ → Peer → Exec Peers (Option ℕ)
  client_of id peer peers = elim peer.client [
    | some c ↦ (ok (some c), peers)
    | none ↦ elim (env.dial peer.addr peer.client_tls_config) [
      | ok c ↦ (
        ok (some c),
        record peers { inner = HashMap.insert id (record peer { client = some c }) peers.inner },
      )
      | err e ↦ (ok none, peers)
      | panic ↦ (panic, peers)
    ]
  ]

  abbrev deliver : Message → Option ℕ → Exec Peers (Option SelfMessage)
  deliver m none peers = (ok (some (report_unreachable m.to)), peers)
  deliver m (some c) peers = elim (env.call_send_message c m) [
    | ok u ↦ (ok none, peers)
    | err e ↦ (ok (some (report_unreachable m.to)), peers)
    | panic ↦ (panic, peers)
  ]

  -- The task that carries one message: what it reports to the node, if anything.
  unfoldable pub send_message : Message → Exec Peers (Option SelfMessage)
  send_message m peers = elim (Peers.get m.to peers) [
    | none ↦ deliver m none peers
    | some peer ↦ (client_of m.to peer >>= deliver m) peers
  ]

  -- A task for each message.
  abbrev pub send_messages : List Message → Exec (RaftNodeCore F S R) Unit
  send_messages ms s = (ok tt, record s { spawned = s.spawned ++ ms })

  abbrev pub restore_snapshot : Snapshot → Exec (RaftNodeCore F S R) Unit
  restore_snapshot x = do
    when (not (is_empty x.data_)) (on_fsm (env.fsm.restore x.data_))
    on_store (env.storage.apply_snapshot x)

  abbrev pub persist_hard_state : Option HardState → Exec (RaftNodeCore F S R) Unit
  persist_hard_state none = pure tt
  persist_hard_state (some hs) = on_store (env.storage.set_hard_state hs)

  abbrev pub persist_commit : Option ℕ → Exec (RaftNodeCore F S R) Unit
  persist_commit none = pure tt
  persist_commit (some commit) = on_store (env.storage.set_hard_state_commit commit)

  abbrev pub append_entries : List Entry → Exec (RaftNodeCore F S R) Unit
  append_entries [] = pure tt
  append_entries (e ∷ es) = on_store (env.storage.append (e ∷ es))

  abbrev pub take_ready : Exec (RaftNodeCore F S R) Ready
  take_ready s = let (r, t) = env.raft.ready s.store s.raw_node in (ok r, record s { raw_node = t })

  abbrev pub advance : Ready → Exec (RaftNodeCore F S R) LightReady
  advance ready s =
      let (r, t) = env.raft.advance ready s.store s.raw_node in (ok r, record s { raw_node = t })

  -- What a `Ready` asks for, in the order of the code, up to `advance`.
  unfoldable pub handle_ready : Ready → Exec (RaftNodeCore F S R) Unit
  handle_ready ready = do
    send_messages ready.messages
    when (not (env.raft.is_default ready.snapshot)) (restore_snapshot ready.snapshot)
    handle_committed_entries env ready.committed_entries
    append_entries ready.entries
    persist_hard_state ready.hs
    send_messages ready.persisted_messages

  unfoldable pub handle_light_ready : LightReady → Exec (RaftNodeCore F S R) Unit
  handle_light_ready light_rd = do
    persist_commit light_rd.commit_index
    send_messages light_rd.messages
    handle_committed_entries env light_rd.committed_entries

  unfoldable pub on_ready : Exec (RaftNodeCore F S R) Unit
  on_ready s =
      if not (env.raft.has_ready s.store s.raw_node)
      then (ok tt, s)
      else ((do
        ready ← take_ready
        handle_ready ready
        light_rd ← advance ready
        handle_light_ready light_rd
        change_raft env.raft.advance_apply)
          s)

  abbrev pub handle_event : Event → Exec (RaftNodeCore F S R) Unit
  handle_event (from_self m) = handle_self_message env m
  handle_event (from_server m) = handle_server_request_msg env m
  handle_event (from_local m) = handle_local_request_msg env m
  handle_event nothing = pure tt

  abbrev pub on_core : {A : Type 0} → Exec (RaftNodeCore F S R) A → Exec (Running F S R) A
  on_core m s = let (r, t) = m s.core in (r, record s { core = t })

  -- The timer after `elapsed`; the difference is never below 0 where it is taken.
  unfoldable pub update_timer : ℕ → Exec (Running F S R) Unit
  update_timer elapsed s =
      if ltb s.tick_timer elapsed
      then (on_core (change_raft env.raft.tick)
          (record s { tick_timer = s.core.config.tick_interval }))
      else (ok tt, record s { tick_timer = s.tick_timer - elapsed })

  -- One turn of the loop, in which `elapsed` goes by before the event.
  unfoldable pub turn : Event → ℕ → Exec (Running F S R) Unit
  turn event elapsed = do
    on_core (modify (λ s. record s { now = s.now + elapsed }))
    on_core (handle_event event)
    update_timer elapsed
    on_core on_ready

  -- The loop on a sequence of events: `true` when the node quit, `false` when it still waits.
  unfoldable pub run : List (Event × ℕ) → Exec (Running F S R) Bool
  run [] s = (ok s.core.should_exit, s)
  run ((event, elapsed) ∷ rest) s =
      if s.core.should_exit then (ok true, s) else ((do turn event elapsed; run rest) s)
