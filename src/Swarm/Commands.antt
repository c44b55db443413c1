-- ===== src/Swarm/Commands.antt =====
-- src/swarm.rs: the loop over the commands in `poll_next`.
use hyperswarm_rs.Prelude.{
  ℕ, zero, suc, ◌<◌, ◌≡◌, refl, ap, ◌∙◌, List, [], ◌∷◌, length, returns, arith,
}
use hyperswarm_rs.Prelude.Outcomes.{>>=-eq-returns}
use hyperswarm_rs.Config.{TopicConfig}
use hyperswarm_rs.Channel.{Channel, IsFifo, received, rest_of}
use hyperswarm_rs.Discovery.{Topic, Discovery}
use hyperswarm_rs.Transport.{Transport}
use hyperswarm_rs.Swarm.{ConfigureCommand, Hyperswarm, configure, poll_commands}
use hyperswarm_rs.Swarm.Configure.{configure_all}

module _ {D S T Q : Type 0} (discovery : Discovery D) (transport : Transport S T)
    (channel : Channel Q ConfigureCommand) where
  -- `configure` does not look at the channel.
  configure-commands :
      (topic : Topic) (config : TopicConfig) (s : Hyperswarm D S Q) (q : Q) {t : Hyperswarm D S Q}
      → configure discovery transport channel topic config s ≡ returns t
      → configure discovery transport channel topic config (record s { commands = q })
        ≡ returns (record t { commands = q })
  unfolding configure
  configure-commands topic config s q e = ground arith

  module _ (fifo : IsFifo channel) where
    drains :
        (commands : List ConfigureCommand) (fuel : ℕ) (s : Hyperswarm D S Q) (q : Q)
        {t : Hyperswarm D S Q}
        → fifo.contents q ≡ commands
        → length commands < fuel
        → configure_all discovery transport channel commands s ≡ returns t
        → (q' : Q) × (poll_commands discovery transport channel fuel (record s { commands = q })
            ≡ returns (record t { commands = q' }))
          × (fifo.contents q' ≡ [])
    unfolding poll_commands configure_all
    drains commands zero s q c h e = absurd (omega arith)
    drains [] (suc fuel) s q c h e =
        ((channel.poll_next q).1, ground (arith, fifo.receives q), ground (arith, fifo.takes q))
    drains ((topic, config) ∷ commands) (suc fuel) s q c h e =
        let p = >>=-eq-returns (configure discovery transport channel topic config s) _ e in
        let q₁ = (channel.poll_next q).1 in
        let (q', ran, empty) =
          drains commands fuel p.0 q₁ (fifo.takes q ∙ ap rest_of c) (omega arith) p.2 in
        (
          q',
          rw (fifo.receives q ∙ ap received c) (rw (configure-commands topic config s q₁ p.1) ran),
          empty,
        )

    -- Over an open first-in first-out channel, where configuring the swarm by the queued commands in
    -- their order gives a swarm: the loop over the commands ends within one round more than there
    -- are commands, leaves that swarm but for the channel, and leaves the channel empty.
    pub poll_commands-drains :
        (fuel : ℕ) (s : Hyperswarm D S Q) {t : Hyperswarm D S Q}
        → length (fifo.contents s.commands) < fuel
        → configure_all discovery transport channel (fifo.contents s.commands) s ≡ returns t
        → (q : Q) × (poll_commands discovery transport channel fuel s
            ≡ returns (record t { commands = q }))
          × (fifo.contents q ≡ [])
    poll_commands-drains fuel s = drains (fifo.contents s.commands) fuel s s.commands refl
