-- ===== src/Config/Builder/Tls.antt =====
-- raftify/src/config/config_builder.rs: the TLS settings of what is built.
use riteraft_ng.Prelude.{
  ℕ, ◌≡◌, Option, none, some, arith, ◌==◌, if◌then◌else◌, Option-cases, inl, inr,
}
use riteraft_ng.HashMap
use riteraft_ng.HashMap.{get-insert}
use riteraft_ng.Peers
use riteraft_ng.Peers.{Peer, Peers, TlsConfig}
use riteraft_ng.Config.Builder.{ConfigBuilder, build}

-- The node's own settings, or else the global ones.
abbrev pub settings_of : Option TlsConfig → Option TlsConfig → Option TlsConfig
settings_of none global = global
settings_of (some tls) global = some tls

own_stays :
    (id k : ℕ) (peers : Peers) (self_peer : Peer) (tls : Option TlsConfig)
    → Peers.get id peers ≡ some self_peer
    → tls ≡ self_peer.client_tls_config
    → Peers.get k peers
      ≡ (if id == k then some (record self_peer { client_tls_config = tls }) else Peers.get k peers)
own_stays id k peers self_peer tls g e = ground (arith, g, e)

-- The built configuration and the node's own peer have the same TLS settings for clients: those of
-- the peer, or else the global ones. Every other peer, one without settings included, stays as it
-- is, and the settings that the configuration had before are lost.
pub build-tls :
    (b : ConfigBuilder) (peers : Peers) (self_peer : Peer) (old : Option TlsConfig)
    → b.config.initial_peers ≡ some peers
    → Peers.get b.config.raft_config.id peers ≡ some self_peer
    → let tls = settings_of self_peer.client_tls_config b.global_client_tls_config_ in
      let built = build b in
      (built.client_tls_config ≡ tls)
      × ((after : Peers) × (built.initial_peers ≡ some after)
          × ((k : ℕ)
              → Peers.get k after ≡ (
                  if b.config.raft_config.id == k
                  then some (record self_peer { client_tls_config = tls })
                  else Peers.get k peers)))
      × (build (record b { config = record b.config { client_tls_config = old } }) ≡ built)
unfolding build Peers.get
build-tls b peers self_peer old p g = elim (Option-cases self_peer.client_tls_config) [
  | inl e ↦ (
    rw (p, g, e),
    (
      record peers {
        inner =
            HashMap.insert b.config.raft_config.id
              (record self_peer { client_tls_config = b.global_client_tls_config_ }) peers.inner;
      },
      rw (p, g, e),
      λ k. rw e (get-insert k b.config.raft_config.id _ peers.inner),
    ),
    rw p,
  )
  | inr (tls, e) ↦ (
    rw (p, g, e),
    (peers, rw (p, g, e), λ k. own_stays b.config.raft_config.id k peers self_peer _ g (rw e)),
    rw p,
  )
]
