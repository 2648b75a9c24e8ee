-- ===== src/Client/Kinds.antt =====
-- raftify/src/raft_node/mod.rs: the node answers a message of `RaftNode` at most once, on its own
-- channel, with what the method expects.
use riteraft_ng.Prelude.{
  ℕ, ◌≡◌, refl, ◌⊎◌, inl, inr, Bool, true, false, Option, none, some, [], ◌∷◌, ◌++◌, arith, ◌==◌,
  Bool-cases,
}
use riteraft_ng.Outcome.{ok, is_ok}
use riteraft_ng.Exec.{Exec, ◌>>=◌, >>=-eq-ok}
use riteraft_ng.Proto.{Bytes, ConfChangeV2}
use riteraft_ng.Node.Messages.{
  ConfChangeResponseResult, local, LocalRequestMsg, LocalResponseMsg, is_leader, get_id,
  get_leader_id, get_peers, add_peer, add_peers, debug_node, get_state_machine, get_storage,
  get_cluster_size, quit, campaign, leave, get_raw_node, demote, transfer_leader, make_snapshot,
  propose, change_config, send_message, join_cluster, leave_joint,
}
use riteraft_ng.Node.State
use riteraft_ng.Node.State.{
  Env, RaftNodeCore, Reply, to_local, to_server, send_local, on_raft, change_raft,
}
use riteraft_ng.Node.Requests
use riteraft_ng.Node.Dispatch.{handle_local_request_msg}
use riteraft_ng.Client.Reads
use riteraft_ng.Client.Silence.{
  keep-Silent, Silent, sent, ok-Silent, sent_after, make_snapshot-Silent, add_peer-Silent,
  add_peers-Silent, handle_join-Silent, step-Silent,
}

module _ {F S R : Type 0} where
  -- The method that sent the message takes the answer, and does not meet `unreachable!`.
  abbrev pub is_expected : LocalRequestMsg → LocalResponseMsg F S R → Bool
  is_expected (is_leader tx) r = is_ok (Reads.read_is_leader r)
  is_expected (get_id tx) r = is_ok (Reads.read_id r)
  is_expected (get_leader_id tx) r = is_ok (Reads.read_leader_id r)
  is_expected (get_peers tx) r = is_ok (Reads.read_peers r)
  is_expected (add_peer id addr role tx) r = is_ok (Reads.read_add_peer r)
  is_expected (add_peers peers tx) r = is_ok (Reads.read_add_peers r)
  is_expected (debug_node tx) r = is_ok (Reads.read_inspect r)
  is_expected (get_state_machine tx) r = is_ok (Reads.read_state_machine r)
  is_expected (get_storage tx) r = is_ok (Reads.read_storage r)
  is_expected (get_cluster_size tx) r = is_ok (Reads.read_cluster_size r)
  is_expected (quit tx) r = is_ok (Reads.read_quit r)
  is_expected (campaign tx) r = is_ok (Reads.read_campaign r)
  is_expected (leave tx) r = is_ok (Reads.read_leave r)
  is_expected (get_raw_node tx) r = is_ok (Reads.read_raw_node r)
  is_expected (demote term leader_id tx) r = is_ok (Reads.read_demote r)
  is_expected (transfer_leader node_id tx) r = is_ok (Reads.read_transfer_leader r)
  is_expected (make_snapshot index term tx) r = is_ok (Reads.read_make_snapshot r)
  is_expected (send_message message tx) r = is_ok (Reads.read_send_message r)
  is_expected (join_cluster tickets tx) r = is_ok (Reads.read_join_cluster r)
  is_expected (propose proposal tx) (LocalResponseMsg.propose _) = true
  is_expected (propose proposal tx) _ = false
  is_expected (change_config request tx) (LocalResponseMsg.config_change _) = true
  is_expected (change_config request tx) _ = false
  is_expected leave_joint r = false

-- The channel of a message; `leave_joint` has none.
abbrev pub channel_of : LocalRequestMsg → Option ℕ
channel_of (is_leader tx) = some tx
channel_of (get_id tx) = some tx
channel_of (get_leader_id tx) = some tx
channel_of (get_peers tx) = some tx
channel_of (add_peer id addr role tx) = some tx
channel_of (add_peers peers tx) = some tx
channel_of (debug_node tx) = some tx
channel_of (get_state_machine tx) = some tx
channel_of (get_storage tx) = some tx
channel_of (get_cluster_size tx) = some tx
channel_of (quit tx) = some tx
channel_of (campaign tx) = some tx
channel_of (leave tx) = some tx
channel_of (get_raw_node tx) = some tx
channel_of (demote term leader_id tx) = some tx
channel_of (transfer_leader node_id tx) = some tx
channel_of (make_snapshot index term tx) = some tx
channel_of (send_message message tx) = some tx
channel_of (join_cluster tickets tx) = some tx
channel_of (propose proposal tx) = some tx
channel_of (change_config request tx) = some tx
channel_of leave_joint = none

-- The messages that wait for a commit, or are dropped, and the one without a channel.
abbrev pub may_stay_silent : LocalRequestMsg → Bool
may_stay_silent (propose proposal tx) = true
may_stay_silent (change_config request tx) = true
may_stay_silent (leave tx) = true
may_stay_silent leave_joint = true
may_stay_silent _ = false

module _ {F S R : Type 0} (env : Env F S R) where
  -- What a message adds to the answers: nothing, where it may stay silent, or one answer on its
  -- channel that its method takes.
  abbrev pub AnsweredOnce : LocalRequestMsg → RaftNodeCore F S R → RaftNodeCore F S R → Type 0
  AnsweredOnce m s t =
      ((t.replies ≡ s.replies) × (may_stay_silent m ≡ true))
      ⊎ ((tx : ℕ) × (r : LocalResponseMsg F S R) × (channel_of m ≡ some tx)
          × (t.replies ≡ s.replies ++ to_local tx r ∷ [])
          × (is_expected m r ≡ true))

  -- A proposal is refused with the leader, dropped, or kept.
  propose-AnsweredOnce :
      (p : Bytes) (tx : ℕ) (s t : RaftNodeCore F S R)
      → Requests.handle_propose_request env p (local tx) s ≡ (ok tt, t)
      → AnsweredOnce (propose p tx) s t
  unfolding Requests.handle_propose_request
  propose-AnsweredOnce p tx s t h = elim (Bool-cases (State.is_leader env s)) [
    | inl l ↦ inl (ok-Silent _ s t (keep-Silent env (local tx) _) (rw l at h), refl)
    | inr l ↦ elim (Bool-cases (State.get_leader_id env s == 0)) [
      | inl z ↦ inl (ground arith, refl)
      | inr z ↦
          let (addr, u, e, k) = >>=-eq-ok _ _ s (rw (l, z) at h) in
          let same : u ≡ s = ground arith in inr (tx, _, refl, rw same at (sent tx _ u t k), refl)
    ]
  ]

  -- So is a change of the membership; `m` is the message that asked for it.
  confchange-AnsweredOnce :
      (m : LocalRequestMsg) (c : ConfChangeV2) (tx : ℕ) (s t : RaftNodeCore F S R)
      → may_stay_silent m ≡ true
      → channel_of m ≡ some tx
      → ((x : ConfChangeResponseResult) (r : LocalResponseMsg F S R)
          → r ≡ LocalResponseMsg.config_change x
          → is_expected m r ≡ true)
      → Requests.handle_confchange_request env c (local tx) s ≡ (ok tt, t)
      → AnsweredOnce m s t
  unfolding Requests.handle_confchange_request
  confchange-AnsweredOnce m c tx s t q ch ex h =
      elim (Bool-cases (env.raft.has_pending_conf s.raw_node)) [
        | inl p ↦ inl (ground arith, q)
        | inr p ↦ elim (Bool-cases (State.is_leader env s)) [
          | inl l ↦ inl (ok-Silent _ s t (keep-Silent env (local tx) _) (rw (p, l) at h), q)
          | inr l ↦ elim (Bool-cases (State.get_leader_id env s == 0)) [
            | inl z ↦ inl (ground arith, q)
            | inr z ↦
                let (addr, u, e, k) = >>=-eq-ok _ _ s (rw (p, l, z) at h) in
                let same : u ≡ s = ground arith in
                inr (tx, _, ch, rw same at (sent tx _ u t k), ex _ _ refl)
          ]
        ]
      ]

  answers :
      (tx : ℕ) (m : LocalRequestMsg) (r : LocalResponseMsg F S R) (s t : RaftNodeCore F S R)
      → channel_of m ≡ some tx
      → is_expected m r ≡ true
      → send_local tx r s ≡ (ok tt, t)
      → AnsweredOnce m s t
  answers tx m r s t c e h = inr (tx, r, c, sent tx r s t h, e)

  answers_after :
      {A : Type 0} (tx : ℕ) (m : LocalRequestMsg) (q : Exec (RaftNodeCore F S R) A)
      (r : LocalResponseMsg F S R) (s t : RaftNodeCore F S R)
      → channel_of m ≡ some tx
      → is_expected m r ≡ true
      → Silent q
      → (q >>= λ _. send_local tx r) s ≡ (ok tt, t)
      → AnsweredOnce m s t
  answers_after tx m q r s t c e z h = inr (tx, r, c, sent_after q tx r s t z h, e)

  -- Where the handler of a message of `RaftNode` ends without an error or a panic, it adds at most
  -- one answer: on the message's channel, and of the kind that the method which sent the message
  -- takes. Only a proposal, a change of the membership and a leave may add none, and the leave of a
  -- joint configuration, which has no channel. The answers that a later commit sends are not among
  -- these.
  pub message-AnsweredOnce :
      (m : LocalRequestMsg) (s t : RaftNodeCore F S R)
      → handle_local_request_msg env m s ≡ (ok tt, t)
      → AnsweredOnce m s t
  unfolding handle_local_request_msg
  message-AnsweredOnce (is_leader tx) s t h = answers tx (is_leader tx) _ s t refl refl h
  message-AnsweredOnce (get_id tx) s t h = answers tx (get_id tx) _ s t refl refl h
  message-AnsweredOnce (get_leader_id tx) s t h = answers tx (get_leader_id tx) _ s t refl refl h
  message-AnsweredOnce (get_peers tx) s t h = answers tx (get_peers tx) _ s t refl refl h
  message-AnsweredOnce (get_state_machine tx) s t h =
      answers tx (get_state_machine tx) _ s t refl refl h
  message-AnsweredOnce (get_storage tx) s t h = answers tx (get_storage tx) _ s t refl refl h
  message-AnsweredOnce (get_cluster_size tx) s t h =
      answers tx (get_cluster_size tx) _ s t refl refl h
  message-AnsweredOnce (get_raw_node tx) s t h = answers tx (get_raw_node tx) _ s t refl refl h
  message-AnsweredOnce (quit tx) s t h =
      inr (tx, LocalResponseMsg.quit, refl, sent tx _ (record s { should_exit = true }) t h, refl)
  message-AnsweredOnce (add_peer id addr role tx) s t h =
      answers_after tx (add_peer id addr role tx) _ _ s t refl refl (add_peer-Silent env id _ role)
        h
  message-AnsweredOnce (add_peers peers tx) s t h =
      answers_after tx (add_peers peers tx) _ _ s t refl refl (add_peers-Silent env peers) h
  message-AnsweredOnce (debug_node tx) s t h =
      let (json, u, e, k) = >>=-eq-ok _ _ s h in
      let same : u ≡ s = ground arith in
      inr (tx, LocalResponseMsg.debug_node json, refl, rw same at (sent tx _ u t k), refl)
  message-AnsweredOnce (campaign tx) s t h =
      answers_after tx (campaign tx) _ _ s t refl refl (record { at = λ s. refl }) h
  message-AnsweredOnce (demote term leader_id tx) s t h =
      answers_after tx (demote term leader_id tx) _ _ s t refl refl (record { at = λ s. refl }) h
  message-AnsweredOnce (transfer_leader node_id tx) s t h =
      answers_after tx (transfer_leader node_id tx) _ _ s t refl refl (record { at = λ s. refl }) h
  message-AnsweredOnce (make_snapshot index term tx) s t h =
      answers_after tx (make_snapshot index term tx) _ _ s t refl refl
        (make_snapshot-Silent env index term) h
  message-AnsweredOnce (send_message message tx) s t h =
      answers_after tx (send_message message tx) _ _ s t refl refl (step-Silent env message) h
  message-AnsweredOnce (join_cluster tickets tx) s t h =
      answers_after tx (join_cluster tickets tx) _ _ s t refl refl (handle_join-Silent env tickets)
        h
  message-AnsweredOnce leave_joint s t h = inl (ground arith, refl)
  message-AnsweredOnce (propose proposal tx) s t h = propose-AnsweredOnce proposal tx s t h
  message-AnsweredOnce (leave tx) s t h =
      confchange-AnsweredOnce (leave tx) _ tx s t refl refl (λ x r e. rw e) h
  message-AnsweredOnce (change_config request tx) s t h =
      let (c, u, e, k) = >>=-eq-ok _ _ s h in
      let same : u ≡ s = ground arith in
      confchange-AnsweredOnce (change_config request tx) c tx s t refl refl (λ x r e. rw e)
        (rw same at k)
