-- ===== src/Server/Kinds.antt =====
-- raftify/src/raft_server.rs and raftify/src/raft_node/mod.rs: the node answers a message of the
-- server at most once, on its own channel, with what the method expects.
use riteraft_ng.Prelude.{
  ℕ, String, ◌≡◌, refl, ◌⊎◌, inl, inr, Bool, true, false, Option, none, some, [], ◌∷◌, ◌++◌, arith,
  ◌==◌, Bool-cases,
}
use riteraft_ng.Outcome.{ok, is_ok}
use riteraft_ng.Exec.{Exec, ◌>>=◌, >>=-eq-ok}
use riteraft_ng.Proto.{Bytes, ConfChangeV2}
use riteraft_ng.ConfChange.{ConfChangeRequest}
use riteraft_ng.Node.Messages.{
  ServerRequestMsg, ServerResponseMsg, server, request_id, propose, change_config, debug_node,
  get_peers, leave_joint, create_snapshot, send_message, set_peers,
}
use riteraft_ng.Node.State
use riteraft_ng.Node.State.{Env, RaftNodeCore, Reply, to_local, to_server, send_server, on_raft}
use riteraft_ng.Node.Requests
use riteraft_ng.Node.Dispatch.{handle_server_request_msg, handle_request_id}
use riteraft_ng.Server.Methods
use riteraft_ng.Client.Silence.{Silent, keep-Silent, make_snapshot-Silent, ok-Silent, step-Silent}

-- The method that sent the message takes the answer, and does not meet `unreachable!`.
abbrev pub is_expected : ServerRequestMsg → ServerResponseMsg → Bool
is_expected (request_id addr tx) (ServerResponseMsg.request_id _) = true
is_expected (request_id addr tx) _ = false
is_expected (propose proposal tx) (ServerResponseMsg.propose _) = true
is_expected (propose proposal tx) _ = false
is_expected (change_config request tx) (ServerResponseMsg.config_change _) = true
is_expected (change_config request tx) _ = false
is_expected (debug_node tx) r = is_ok (Methods.read_debug_node r)
is_expected (get_peers tx) r = is_ok (Methods.read_peers (λ p. "") r)
is_expected (leave_joint tx) r = is_ok (Methods.read_leave_joint r)
is_expected (create_snapshot tx) r = is_ok (Methods.read_create_snapshot r)
is_expected (set_peers peers tx) r = is_ok (Methods.read_set_peers r)
is_expected (send_message message) r = false

abbrev pub channel_of : ServerRequestMsg → Option ℕ
channel_of (request_id addr tx) = some tx
channel_of (propose proposal tx) = some tx
channel_of (change_config request tx) = some tx
channel_of (debug_node tx) = some tx
channel_of (get_peers tx) = some tx
channel_of (leave_joint tx) = some tx
channel_of (create_snapshot tx) = some tx
channel_of (set_peers peers tx) = some tx
channel_of (send_message message) = none

abbrev pub may_stay_silent : ServerRequestMsg → Bool
may_stay_silent (request_id addr tx) = true
may_stay_silent (propose proposal tx) = true
may_stay_silent (change_config request tx) = true
may_stay_silent (send_message message) = true
may_stay_silent _ = false

module _ {F S R : Type 0} (env : Env F S R) where
  -- What a message adds to the answers: nothing, where it may stay silent, or one answer on its
  -- channel that its method takes.
  abbrev pub AnsweredOnce : ServerRequestMsg → RaftNodeCore F S R → RaftNodeCore F S R → Type 0
  AnsweredOnce m s t =
      ((t.replies ≡ s.replies) × (may_stay_silent m ≡ true))
      ⊎ ((tx : ℕ) × (r : ServerResponseMsg) × (channel_of m ≡ some tx)
          × (t.replies ≡ s.replies ++ to_server tx r ∷ [])
          × (is_expected m r ≡ true))

  sent :
      (tx : ℕ) (m : ServerResponseMsg) (s t : RaftNodeCore F S R)
      → send_server tx m s ≡ (ok tt, t)
      → t.replies ≡ s.replies ++ to_server tx m ∷ []
  sent tx m s t h = ground (arith, Bool-cases (s.receivers tx))

  sent_after :
      {A : Type 0} (m : Exec (RaftNodeCore F S R) A) (tx : ℕ) (r : ServerResponseMsg)
      (s t : RaftNodeCore F S R)
      → Silent m
      → (m >>= λ _. send_server tx r) s ≡ (ok tt, t)
      → t.replies ≡ s.replies ++ to_server tx r ∷ []
  sent_after m tx r s t q h =
      let (a, u, e, k) = >>=-eq-ok m _ s h in
      let same : u.replies ≡ s.replies = rw e at (q.at s) in rw (← same) (sent tx r u t k)

  propose-AnsweredOnce :
      (p : Bytes) (tx : ℕ) (s t : RaftNodeCore F S R)
      → Requests.handle_propose_request env p (server tx) s ≡ (ok tt, t)
      → AnsweredOnce (propose p tx) s t
  unfolding Requests.handle_propose_request
  propose-AnsweredOnce p tx s t h = elim (Bool-cases (State.is_leader env s)) [
    | inl l ↦ inl (ok-Silent _ s t (keep-Silent env (server tx) _) (rw l at h), refl)
    | inr l ↦ elim (Bool-cases (State.get_leader_id env s == 0)) [
      | inl z ↦ inl (ground arith, refl)
      | inr z ↦
          let (addr, u, e, k) = >>=-eq-ok _ _ s (rw (l, z) at h) in
          let same : u ≡ s = ground arith in inr (tx, _, refl, rw same at (sent tx _ u t k), refl)
    ]
  ]

  change_config-AnsweredOnce :
      (q : ConfChangeRequest) (c : ConfChangeV2) (tx : ℕ) (s t : RaftNodeCore F S R)
      → Requests.handle_confchange_request env c (server tx) s ≡ (ok tt, t)
      → AnsweredOnce (change_config q tx) s t
  unfolding Requests.handle_confchange_request
  change_config-AnsweredOnce q c tx s t h =
      elim (Bool-cases (env.raft.has_pending_conf s.raw_node)) [
        | inl p ↦ inl (ground arith, refl)
        | inr p ↦ elim (Bool-cases (State.is_leader env s)) [
          | inl l ↦ inl (ok-Silent _ s t (keep-Silent env (server tx) _) (rw (p, l) at h), refl)
          | inr l ↦ elim (Bool-cases (State.get_leader_id env s == 0)) [
            | inl z ↦ inl (ground arith, refl)
            | inr z ↦
                let (addr, u, e, k) = >>=-eq-ok _ _ s (rw (p, l, z) at h) in
                let same : u ≡ s = ground arith in
                inr (tx, _, refl, rw same at (sent tx _ u t k), refl)
          ]
        ]
      ]

  request_id-AnsweredOnce :
      (a : String) (tx : ℕ) (s t : RaftNodeCore F S R)
      → handle_request_id env a tx s ≡ (ok tt, t)
      → AnsweredOnce (request_id a tx) s t
  unfolding handle_request_id
  request_id-AnsweredOnce a tx s t h = elim (Bool-cases (State.is_leader env s)) [
    | inl l ↦
        let (id, u, e, k) = >>=-eq-ok _ _ s (rw l at h) in
        let same : u ≡ s = ground arith in inr (tx, _, refl, rw same at (sent tx _ u t k), refl)
    | inr l ↦ elim (Bool-cases (State.get_leader_id env s == 0)) [
      | inl z ↦ inl (ground arith, refl)
      | inr z ↦
          let (addr, u, e, k) = >>=-eq-ok _ _ s (rw (l, z) at h) in
          let same : u ≡ s = ground arith in inr (tx, _, refl, rw same at (sent tx _ u t k), refl)
    ]
  ]

  -- Where the node's handler of a message of the server ends without an error or a panic, it adds
  -- at most one answer: on the message's channel, and of the kind that the gRPC method which sent
  -- the message takes. Only a request for an identifier, a proposal and a change of the membership
  -- may add none, and a message of raft-rs, which has no channel. The answers that a later commit
  -- sends are not among these.
  pub server_message-AnsweredOnce :
      (m : ServerRequestMsg) (s t : RaftNodeCore F S R)
      → handle_server_request_msg env m s ≡ (ok tt, t)
      → AnsweredOnce m s t
  unfolding handle_server_request_msg
  server_message-AnsweredOnce (request_id a tx) s t h = request_id-AnsweredOnce a tx s t h
  server_message-AnsweredOnce (propose p tx) s t h = propose-AnsweredOnce p tx s t h
  server_message-AnsweredOnce (change_config q tx) s t h =
      let (c, u, e, k) = >>=-eq-ok _ _ s h in
      let same : u ≡ s = ground arith in change_config-AnsweredOnce q c tx s t (rw same at k)
  server_message-AnsweredOnce (debug_node tx) s t h =
      let (json, u, e, k) = >>=-eq-ok _ _ s h in
      let same : u ≡ s = ground arith in
      inr (tx, ServerResponseMsg.debug_node json, refl, rw same at (sent tx _ u t k), refl)
  server_message-AnsweredOnce (get_peers tx) s t h =
      let (peers, u, e, k) = >>=-eq-ok _ _ s h in
      let same : u ≡ s = ground arith in
      inr (tx, ServerResponseMsg.get_peers peers, refl, rw same at (sent tx _ u t k), refl)
  server_message-AnsweredOnce (leave_joint tx) s t h =
      inr (tx, _, refl, sent_after _ tx _ s t (record { at = λ s. refl }) h, refl)
  server_message-AnsweredOnce (create_snapshot tx) s t h =
      let (i, u, e, k) = >>=-eq-ok _ _ s h in
      let (hs, w, f, j) = >>=-eq-ok _ _ u k in
      let same : w ≡ s = ground arith in
      inr (
        tx,
        _,
        refl,
        rw same at (sent_after _ tx _ w t (make_snapshot-Silent env i hs.term) j),
        refl,
      )
  server_message-AnsweredOnce (set_peers peers tx) s t h =
      inr (tx, _, refl, sent_after _ tx _ s t (record { at = λ s. refl }) h, refl)
  server_message-AnsweredOnce (send_message message) s t h =
      inl (ok-Silent _ s t (step-Silent env message) h, refl)
