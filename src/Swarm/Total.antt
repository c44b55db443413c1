-- ===== src/Swarm/Total.antt =====
-- src/swarm.rs: when `poll_next` returns.
use hyperswarm_rs.Prelude.{
  ℕ, ◌+◌, ◌*◌, ◌<◌, ◌≡◌, refl, Bool, true, false, not, ◌&&◌, some, none, List, [], ◌∷◌, ok, err,
  pending, ready, Next, Outcome, returns, arith, length, if◌then◌else◌,
}
use hyperswarm_rs.Prelude.Outcomes.{chain_returns, returns->>=}
use hyperswarm_rs.Channel.{Channel, IsFifo}
use hyperswarm_rs.Config.{TopicConfig, unwrap_or, topic_default}
use hyperswarm_rs.Discovery.{Topic, PeerInfo, Discovery}
use hyperswarm_rs.Discovery.Total.{Within, IsTotal}
use hyperswarm_rs.Transport.{Connection, Transport}
use hyperswarm_rs.Swarm.{
  ConfigureCommand, Hyperswarm, ask, configure, poll_commands, poll_transport, on_discovered,
  poll_discovery, poll_next,
}
use hyperswarm_rs.Swarm.Topics.{find, remove, insert}
use hyperswarm_rs.Swarm.Configure.{configure_all}
use hyperswarm_rs.Swarm.Commands.{poll_commands-drains}

module _ {D S T Q : Type 0} {d : Discovery D} (total : IsTotal d) (t : Transport S T)
    (channel : Channel Q ConfigureCommand) where
  guarded-Within :
      (b : Bool) (call : D → Outcome D) (s : D)
      → Within total.load (total.load s + total.cost) (call s)
      → Within total.load (total.load s + total.cost) (if b then call s else returns s)
  guarded-Within true call s h = h
  guarded-Within false call s h = (s, refl, omega arith)

  ask-Within :
      (topic : Topic) (config old : TopicConfig) (s : D)
      → Within total.load (total.load s + 2 * total.cost) (ask d t channel topic config old s)
  unfolding ask
  ask-Within topic config old s =
      let (s₁, e, h) =
        guarded-Within (config.announce && not old.announce) (d.announce topic) s
          (total.announces topic s) in
      let (s₂, f, k) =
        guarded-Within (config.lookup && not old.lookup) (d.lookup topic) s₁
          (total.looks_up topic s₁) in
      (
        s₂,
        chain_returns _
            (λ u. if config.lookup && not old.lookup then d.lookup topic u else returns u) e f,
        omega arith,
      )

  -- The work that the discovery of a swarm has.
  abbrev pub loaded : Hyperswarm D S Q → ℕ
  loaded s = total.load s.discovery

  configure-Within :
      (topic : Topic) (config : TopicConfig) (s : Hyperswarm D S Q)
      → Within loaded (loaded s + 2 * total.cost) (configure d t channel topic config s)
  unfolding configure
  configure-Within topic config s =
      let (s', e, h) =
        ask-Within topic config (unwrap_or (find topic s.topics) topic_default) s.discovery in
      (
        record s { topics = insert topic config (remove topic s.topics); discovery = s' },
        chain_returns (ask d t channel topic config _ s.discovery) _ e refl,
        h,
      )

  pub configure_all-Within :
      (commands : List ConfigureCommand) (s : Hyperswarm D S Q)
      → Within loaded
          (loaded s + 2 * total.cost * length commands)
          (configure_all d t channel commands s)
  unfolding configure_all
  configure_all-Within [] s = (s, refl, omega arith)
  configure_all-Within ((topic, config) ∷ commands) s =
      let (s₁, e, h) = configure-Within topic config s in
      let (s₂, f, k) = configure_all-Within commands s₁ in
      (s₂, chain_returns _ (configure_all d t channel commands) e f, omega arith)

  module _
      (transport_polls : (u : S)
        → (r : Next (Connection T) × S) × (t.poll_next u ≡ returns r)) where
    poll_transport-returns :
        (s : Hyperswarm D S Q)
        → (r : Next (Connection T) × Hyperswarm D S Q) × (poll_transport d t channel s ≡ returns r)
    unfolding poll_transport
    poll_transport-returns s =
        let (r, e) = transport_polls s.transport in
        returns->>= (t.poll_next s.transport) _ e (_, refl)

    on_discovered-returns :
        (found : Next PeerInfo) (s : Hyperswarm D S Q)
        → (r : Next (Connection T) × Hyperswarm D S Q) × (on_discovered d t channel found s
            ≡ returns r)
    unfolding on_discovered
    on_discovered-returns pending s = poll_transport-returns s
    on_discovered-returns (ready none) s = poll_transport-returns s
    on_discovered-returns (ready (some (err e))) s = ((ready (some (err e)), s), refl)
    on_discovered-returns (ready (some (ok info))) s = poll_transport-returns _

    pub poll_next-returns :
        (fifo : IsFifo channel) (fuel : ℕ) (s : Hyperswarm D S Q)
        → length (fifo.contents s.commands) < fuel
        → loaded s + 2 * total.cost * length (fifo.contents s.commands) < total.limit
        → (r : Next (Connection T) × Hyperswarm D S Q) × (poll_next d t channel fuel s ≡ returns r)
    unfolding poll_next poll_discovery
    poll_next-returns fifo fuel s enough room =
        let (u, all, less) = configure_all-Within (fifo.contents s.commands) s in
        let (q, drained, empty) = poll_commands-drains d t channel fifo fuel s enough all in
        let (r, polled) = total.polls u.discovery (omega arith) in
        returns->>= (poll_commands d t channel fuel s) _ drained
          (returns->>= (d.poll_next u.discovery) _ polled (on_discovered-returns r.0 _))
