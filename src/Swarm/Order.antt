-- ===== src/Swarm/Order.antt =====
-- src/swarm.rs: commands for several topics, in any order.
use hyperswarm_rs.Prelude.{
  ◌≡◌, refl, sym, ap, ◌∙◌, Bool, true, false, Option, some, List, [], ◌∷◌, ◌++◌, returns, arith,
  if◌then◌else◌, is_yes,
}
use hyperswarm_rs.Prelude.Outcomes.{>>=-eq-returns}
use hyperswarm_rs.Channel.{Channel}
use hyperswarm_rs.Config.{TopicConfig}
use hyperswarm_rs.Discovery.{Topic, Discovery}
use hyperswarm_rs.Discovery.Recording.{Recorded, recording}
use hyperswarm_rs.Transport.{Transport}
use hyperswarm_rs.Swarm.{ConfigureCommand, Hyperswarm, ask, configure}
use hyperswarm_rs.Swarm.Topics.{Topic-discrete, same, find, remove, find-insert, find-remove}
use hyperswarm_rs.Swarm.Configure.{
  about, asks_all, setting, settings_of, configure_all, configure_all-about,
}

pub same_refl : (topic : Topic) → same topic topic ≡ true
same_refl topic = elim (Topic-discrete topic topic) as (λ decided. is_yes decided ≡ true) [
  | yes e ↦ refl
  | no differs ↦ absurd (differs refl)
]

-- The last of some settings, or the one before them.
abbrev pub last_or : Option TopicConfig → List TopicConfig → Option TopicConfig
last_or old [] = old
last_or old (config ∷ configs) = last_or (some config) configs

module _ {D S T Q : Type 0} (d : Discovery D) (t : Transport S T)
    (channel : Channel Q ConfigureCommand) where
  pub configure-find :
      (topic : Topic) (config : TopicConfig) (s : Hyperswarm D S Q) {s' : Hyperswarm D S Q}
      (other : Topic)
      → configure d t channel topic config s ≡ returns s'
      → find other s'.topics ≡ (if same topic other then some config else find other s.topics)
  unfolding configure
  configure-find topic config s other e = ground (
    arith,
    >>=-eq-returns (ask d t channel topic config _ s.discovery) _ e,
    find-insert topic other config (remove topic s.topics),
    find-remove topic other s.topics,
  )

  last_or-settings_of :
      (b : Bool) (config : TopicConfig) (configs : List TopicConfig) (old : Option TopicConfig)
      → last_or (if b then some config else old) configs
        ≡ last_or old (if b then config ∷ configs else configs)
  last_or-settings_of true config configs old = refl
  last_or-settings_of false config configs old = refl

  pub configure_all-find :
      (topic : Topic) (commands : List ConfigureCommand) (s : Hyperswarm D S Q)
      {s' : Hyperswarm D S Q}
      → configure_all d t channel commands s ≡ returns s'
      → find topic s'.topics ≡ last_or (find topic s.topics) (settings_of topic commands)
  unfolding configure_all
  configure_all-find topic [] s e = ground arith
  configure_all-find topic ((other, config) ∷ commands) s e =
      let (s₁, one, rest) = >>=-eq-returns (configure d t channel other config s) _ e in
      configure_all-find topic commands s₁ rest
      ∙ ap (λ old. last_or old (settings_of topic commands))
          (configure-find other config s topic one)
      ∙ last_or-settings_of (same other topic) config (settings_of topic commands)
          (find topic s.topics)

module _ {D S T Q : Type 0} (d : Discovery D) (t : Transport (S) T)
    (channel : Channel Q ConfigureCommand) where
  -- Of two sequences of commands by which a swarm is configured without a panic, from one state, and
  -- that give a topic the same settings in the same order, whatever they do to other topics in
  -- between: both leave the same setting of the topic, and the discovery, which keeps a record, was
  -- asked the same of the topic, in the same order.
  pub configure_all-order :
      (topic : Topic) (commands commands' : List ConfigureCommand) (s : Hyperswarm (Recorded D) S Q)
      {s' s'' : Hyperswarm (Recorded D) S Q}
      → settings_of topic commands ≡ settings_of topic commands'
      → configure_all (recording d) t channel commands s ≡ returns s'
      → configure_all (recording d) t channel commands' s ≡ returns s''
      → (find topic s'.topics ≡ find topic s''.topics)
        × (about topic s'.discovery.log ≡ about topic s''.discovery.log)
  configure_all-order topic commands commands' s same_settings ran ran' = (
    configure_all-find (recording d) t channel topic commands s ran
        ∙ ap (last_or (find topic s.topics)) same_settings
        ∙ sym (configure_all-find (recording d) t channel topic commands' s ran'),
    configure_all-about d t channel topic commands s ran
        ∙ ap (λ settings. about topic s.discovery.log ++ asks_all topic (setting topic s) settings)
            same_settings
        ∙ sym (configure_all-about d t channel topic commands' s ran'),
  )
