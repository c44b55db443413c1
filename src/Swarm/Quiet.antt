-- ===== src/Swarm/Quiet.antt =====
-- src/swarm.rs: what configuring leaves alone.
use hyperswarm_rs.Prelude.{
  ℕ, zero, suc, ◌≡◌, ◌∙◌, Bool, true, false, not, ◌&&◌, Option, none, some, Poll, pending, ready,
  Outcome, returns, arith, if◌then◌else◌,
}
use hyperswarm_rs.Prelude.Outcomes
use hyperswarm_rs.Prelude.Outcomes.{>>=-eq-returns, returns-injective, subst_returns}
use hyperswarm_rs.Channel.{Channel}
use hyperswarm_rs.Config.{TopicConfig}
use hyperswarm_rs.Discovery.{Topic, Discovery}
use hyperswarm_rs.Discovery.Recording
use hyperswarm_rs.Transport.{Transport}
use hyperswarm_rs.Transport.Recording.{connections, errors}
use hyperswarm_rs.Transport.Recording as TransportRecording
use hyperswarm_rs.Swarm.{
  ConfigureCommand, ask, configure, handle_configure, on_command, poll_commands,
}
use hyperswarm_rs.Swarm.Books.{Watched}

-- Nothing was polled and nothing dialled.
abbrev pub Quiet : {D S T Q : Type 0} → Watched D S T Q → Watched D S T Q → Type 0
Quiet s s' = (s'.discovery.results ≡ s.discovery.results) × (s'.transport ≡ s.transport)

module _ {D S T Q : Type 0} (d : Discovery D) (t : Transport S T)
    (channel : Channel Q ConfigureCommand) where
  guarded_quiet :
      (b : Bool) (r : Recording.Recorded D) {r' : Recording.Recorded D}
      (call : Recording.Recorded D → Outcome (Recording.Recorded D))
      → (call r ≡ returns r' → r'.results ≡ r.results)
      → (if b then call r else returns r) ≡ returns r'
      → r'.results ≡ r.results
  guarded_quiet true r call h e = h e
  guarded_quiet false r call h e = ground arith

  ask_quiet :
      (topic : Topic) (config old : TopicConfig) (r : Recording.Recorded D)
      {r' : Recording.Recorded D}
      → ask (Recording.recording d) (TransportRecording.recording t) channel topic config old r
        ≡ returns r'
      → r'.results ≡ r.results
  unfolding ask
  ask_quiet topic config old r e =
      let p =
        >>=-eq-returns
          (if config.announce && not old.announce
            then (Recording.recording d).announce topic r
            else returns r)
          _ e in
      guarded_quiet (config.lookup && not old.lookup) p.0 ((Recording.recording d).lookup topic)
        (λ h. ground (arith, >>=-eq-returns (d.lookup topic p.0.inner) _ h)) p.2
      ∙ guarded_quiet (config.announce && not old.announce) r
          ((Recording.recording d).announce topic)
          (λ h. ground (arith, >>=-eq-returns (d.announce topic r.inner) _ h)) p.1

  pub configure-Quiet :
      (topic : Topic) (config : TopicConfig) (s : Watched D S T Q) {s' : Watched D S T Q}
      → configure (Recording.recording d) (TransportRecording.recording t) channel topic config s
        ≡ returns s'
      → Quiet s s'
  unfolding configure
  configure-Quiet topic config s e =
      let p =
        >>=-eq-returns
          (ask (Recording.recording d) (TransportRecording.recording t) channel topic config _
            s.discovery)
          _ e in
      ground (arith, p.2, ask_quiet topic config _ s.discovery p.1)

  on_command-Quiet :
      (again : Watched D S T Q → Outcome (Watched D S T Q))
      (received : Poll (Option ConfigureCommand)) (s : Watched D S T Q) {s' : Watched D S T Q}
      → ((u : Watched D S T Q) → again u ≡ returns s' → Quiet u s')
      → on_command (Recording.recording d) (TransportRecording.recording t) channel again received s
        ≡ returns s'
      → Quiet s s'
  unfolding on_command
  on_command-Quiet again pending s ih e = ground arith
  on_command-Quiet again (ready none) s ih e = ground arith
  on_command-Quiet again (ready (some (topic, config))) s ih e =
      let p =
        >>=-eq-returns
          (configure (Recording.recording d) (TransportRecording.recording t) channel topic config
            s)
          _ e in
      let first = configure-Quiet topic config s p.1 in
      let rest = ih p.0 p.2 in (rest.0 ∙ first.0, rest.1 ∙ first.1)

  pub poll_commands-Quiet :
      (fuel : ℕ) (s : Watched D S T Q) {s' : Watched D S T Q}
      → poll_commands (Recording.recording d) (TransportRecording.recording t) channel fuel s
        ≡ returns s'
      → Quiet s s'
  unfolding poll_commands
  poll_commands-Quiet zero s e = cc
  poll_commands-Quiet (suc fuel) s e = on_command-Quiet _ _ _ (λ u. poll_commands-Quiet fuel u) e

  pub handle_configure-Quiet :
      (topic : Topic) (config : TopicConfig) (s : Watched D S T Q) {s' : Watched D S T Q}
      → handle_configure
          (Recording.recording d)
          (TransportRecording.recording t)
          channel
          topic
          config
          s
        ≡ returns s'
      → Quiet s s'
  unfolding handle_configure
  handle_configure-Quiet topic config s e =
      ground
        (arith, >>=-eq-returns (Outcomes.unwrap (channel.try_send (topic, config) s.commands)) _ e)
