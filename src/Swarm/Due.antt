-- ===== src/Swarm/Due.antt =====
-- src/swarm.rs: what a discovery was asked, with what the queued commands will ask.
use hyperswarm_rs.Prelude.{
  ℕ, zero, suc, ◌≡◌, refl, sym, subst, ap, ap₂, ◌∙◌, none, some, List, [], ◌∷◌, ◌++◌, append-nil,
  append_assoc, ok, err, pending, ready, Next, Outcome, returns, arith,
}
use hyperswarm_rs.Prelude.Outcomes.{>>=-eq-returns}
use hyperswarm_rs.Channel.{Channel, IsFifo, received, rest_of}
use hyperswarm_rs.Config.{TopicConfig}
use hyperswarm_rs.Discovery.{Topic, PeerInfo, Discovery}
use hyperswarm_rs.Discovery.Calls as DiscoveryCalls
use hyperswarm_rs.Discovery.Recording.{Recorded, recording, poll_next-recorded}
use hyperswarm_rs.Transport.{Connection, Transport}
use hyperswarm_rs.Swarm.{
  ConfigureCommand, Hyperswarm, ask, configure, handle_configure, on_command, poll_commands,
  poll_transport, on_discovered, poll_discovery, poll_next,
}
use hyperswarm_rs.Swarm.Topics.{same}
use hyperswarm_rs.Swarm.Configure.{
  about, asks_all, setting, settings_of, configure-about, asks_all-step,
}

module _ {D S T Q : Type 0} (d : Discovery D) (t : Transport S T)
    (channel : Channel Q ConfigureCommand) (fifo : IsFifo channel) (topic : Topic) where
  -- What the discovery was asked about the topic, and what it will be by the queued commands and then `more`.
  abbrev pub due : List ConfigureCommand → Hyperswarm (Recorded D) S Q → List DiscoveryCalls.Call
  due more s =
      about topic s.discovery.log
      ++ asks_all topic (setting topic s) (settings_of topic (fifo.contents s.commands ++ more))

  -- The same topics, queue and record of what was asked.
  abbrev Kept : Hyperswarm (Recorded D) S Q → Hyperswarm (Recorded D) S Q → Type 0
  Kept s s' =
      (s'.topics ≡ s.topics) × (s'.commands ≡ s.commands) × (s'.discovery.log ≡ s.discovery.log)

  due-Kept :
      (more : List ConfigureCommand) (s s' : Hyperswarm (Recorded D) S Q)
      → Kept s s'
      → due more s' ≡ due more s
  due-Kept more s s' (topics, commands, log) = rw (topics, commands, log) refl

  pub due-idle :
      (s : Hyperswarm (Recorded D) S Q)
      → fifo.contents s.commands ≡ []
      → about topic s.discovery.log ≡ due [] s
  due-idle s empty = rw empty (rw append-nil refl)

  configure-commands :
      (other : Topic) (config : TopicConfig) (s : Hyperswarm (Recorded D) S Q)
      {s' : Hyperswarm (Recorded D) S Q}
      → configure (recording d) t channel other config s ≡ returns s'
      → s'.commands ≡ s.commands
  unfolding configure
  configure-commands other config s e =
      ground (arith, >>=-eq-returns (ask (recording d) t channel other config _ s.discovery) _ e)

  due-configure :
      (other : Topic) (config : TopicConfig) (rest more : List ConfigureCommand)
      (s : Hyperswarm (Recorded D) S Q) {s' : Hyperswarm (Recorded D) S Q}
      → fifo.contents s.commands ≡ rest
      → configure (recording d) t channel other config s ≡ returns s'
      → due more s'
        ≡ about topic s.discovery.log
          ++ asks_all topic (setting topic s) (settings_of topic ((other, config) ∷ rest ++ more))
  due-configure other config rest more s {s'} holds e =
      let (logged, set) = configure-about d t channel topic other config s e in
      ap
        (λ queue.
          about topic s'.discovery.log
          ++ asks_all topic (setting topic s') (settings_of topic (queue ++ more)))
        (ap fifo.contents (configure-commands other config s e) ∙ holds)
      ∙ ap₂
          (λ (xs : List DiscoveryCalls.Call) (old : TopicConfig).
            xs ++ asks_all topic old (settings_of topic (rest ++ more)))
          logged set
      ∙ append_assoc (about topic s.discovery.log) _ _
      ∙ ap (◌++◌ (about topic s.discovery.log)) (
          asks_all-step (same other topic) topic (setting topic s) config
            (settings_of topic (rest ++ more)))

  due-on_command :
      (again : Hyperswarm (Recorded D) S Q → Outcome (Hyperswarm (Recorded D) S Q))
      (queue more : List ConfigureCommand) (s : Hyperswarm (Recorded D) S Q)
      {s' : Hyperswarm (Recorded D) S Q}
      → fifo.contents s.commands ≡ rest_of queue
      → ((u : Hyperswarm (Recorded D) S Q)
          → again u ≡ returns s'
          → (due more s' ≡ due more u) × (fifo.contents s'.commands ≡ []))
      → on_command (recording d) t channel again (received queue) s ≡ returns s'
      → (due more s'
          ≡ about topic s.discovery.log
            ++ asks_all topic (setting topic s) (settings_of topic (queue ++ more)))
        × (fifo.contents s'.commands ≡ [])
  unfolding on_command
  due-on_command again [] more s {s'} holds ih e =
      let same_state : s ≡ s' = ground arith in
      subst
        (λ (u : Hyperswarm (Recorded D) S Q).
          (due more u
            ≡ about topic s.discovery.log
              ++ asks_all topic (setting topic s) (settings_of topic more))
          × (fifo.contents u.commands ≡ []))
        same_state
        (
          ap
              (λ queue.
                about topic s.discovery.log
                ++ asks_all topic (setting topic s) (settings_of topic (queue ++ more)))
              holds,
          holds,
        )
  due-on_command again ((other, config) ∷ queue) more s holds ih e =
      let p = >>=-eq-returns (configure (recording d) t channel other config s) _ e in
      let (same_due, empty) = ih p.0 p.2 in
      (same_due ∙ due-configure other config queue more s holds p.1, empty)

  -- The loop over the commands asks what was due, and leaves none queued.
  due-poll_commands :
      (fuel : ℕ) (more : List ConfigureCommand) (s : Hyperswarm (Recorded D) S Q)
      {s' : Hyperswarm (Recorded D) S Q}
      → poll_commands (recording d) t channel fuel s ≡ returns s'
      → (due more s' ≡ due more s) × (fifo.contents s'.commands ≡ [])
  unfolding poll_commands
  due-poll_commands zero more s e = absurd cc
  due-poll_commands (suc fuel) more s e =
      due-on_command (poll_commands (recording d) t channel fuel) (fifo.contents s.commands) more
        (record s { commands = (channel.poll_next s.commands).1 }) (fifo.takes s.commands)
        (λ u f. due-poll_commands fuel more u f)
        (sym (
            ap
              (λ got.
                on_command (recording d) t channel (poll_commands (recording d) t channel fuel) got
                  (record s { commands = (channel.poll_next s.commands).1 }))
              (fifo.receives s.commands))
          ∙ e)

  poll_transport-Kept :
      (s : Hyperswarm (Recorded D) S Q) {result : Next (Connection T)}
      {s' : Hyperswarm (Recorded D) S Q}
      → poll_transport (recording d) t channel s ≡ returns (result, s')
      → Kept s s'
  unfolding poll_transport
  poll_transport-Kept s e = ground (arith, >>=-eq-returns (t.poll_next s.transport) _ e)

  on_discovered-Kept :
      (found : Next PeerInfo) (s : Hyperswarm (Recorded D) S Q) {result : Next (Connection T)}
      {s' : Hyperswarm (Recorded D) S Q}
      → on_discovered (recording d) t channel found s ≡ returns (result, s')
      → Kept s s'
  unfolding on_discovered
  on_discovered-Kept pending s e = poll_transport-Kept s e
  on_discovered-Kept (ready none) s e = poll_transport-Kept s e
  on_discovered-Kept (ready (some (err x))) s e = ground arith
  on_discovered-Kept (ready (some (ok info))) s e = poll_transport-Kept _ e

  poll_discovery-Kept :
      (s : Hyperswarm (Recorded D) S Q) {result : Next (Connection T)}
      {s' : Hyperswarm (Recorded D) S Q}
      → poll_discovery (recording d) t channel s ≡ returns (result, s')
      → Kept s s'
  unfolding poll_discovery
  poll_discovery-Kept s e =
      let p = >>=-eq-returns ((recording d).poll_next s.discovery) _ e in
      let (log, results) = poll_next-recorded d s.discovery p.1 in
      let (topics, commands, logs) = on_discovered-Kept p.0.0 _ p.2 in
      (topics, commands, logs ∙ log)

  pub due-poll_next :
      (fuel : ℕ) (more : List ConfigureCommand) (s : Hyperswarm (Recorded D) S Q)
      {result : Next (Connection T)} {s' : Hyperswarm (Recorded D) S Q}
      → poll_next (recording d) t channel fuel s ≡ returns (result, s')
      → (due more s' ≡ due more s) × (fifo.contents s'.commands ≡ [])
  unfolding poll_next
  due-poll_next fuel more s {s' = s'} e =
      let p = >>=-eq-returns (poll_commands (recording d) t channel fuel s) _ e in
      let (same_due, empty) = due-poll_commands fuel more s p.1 in
      let kept = poll_discovery-Kept p.0 p.2 in
      (due-Kept more p.0 s' kept ∙ same_due, ap fifo.contents kept.1 ∙ empty)

  pub due-handle_configure :
      (other : Topic) (config : TopicConfig) (more : List ConfigureCommand)
      (s : Hyperswarm (Recorded D) S Q) {s' : Hyperswarm (Recorded D) S Q}
      → handle_configure (recording d) t channel other config s ≡ returns s'
      → due more s' ≡ due ((other, config) ∷ more) s
  unfolding handle_configure
  due-handle_configure other config more s {s'} e =
      let (q, sending, holds) = fifo.sends (other, config) s.commands in
      let made : record s { commands = q } ≡ s' = ground arith in
      subst (λ (u : Hyperswarm (Recorded D) S Q). due more u ≡ due ((other, config) ∷ more) s) made
        (ap
          (λ queue.
            about topic s.discovery.log
            ++ asks_all topic (setting topic s) (settings_of topic queue))
          (ap (λ queue. queue ++ more) holds
            ∙ append_assoc (fifo.contents s.commands) ((other, config) ∷ []) more))
