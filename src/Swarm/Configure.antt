-- ===== src/Swarm/Configure.antt =====
-- src/swarm.rs: what `configure` asks of the discovery, over any sequence of commands.
use hyperswarm_rs.Prelude.{
  ◌≡◌, refl, ap, ap₂, ◌∙◌, Bool, true, false, not, ◌&&◌, List, [], ◌∷◌, ◌++◌, append-nil,
  append_assoc, Outcome, returns, arith, if◌then◌else◌,
}
use hyperswarm_rs.Prelude.Outcomes
use hyperswarm_rs.Prelude.Outcomes.{>>=-eq-returns}
use hyperswarm_rs.Config.{TopicConfig, unwrap_or, topic_default}
use hyperswarm_rs.Channel.{Channel}
use hyperswarm_rs.Discovery.{Topic, Discovery}
use hyperswarm_rs.Discovery.Calls.{Call, looks_up, announces, polls}
use hyperswarm_rs.Discovery.Recording.{Recorded, recording, log-lookup, log-announce}
use hyperswarm_rs.Transport.{Transport}
use hyperswarm_rs.Swarm.Topics.{same, find, remove, insert, find-remove, find-insert}
use hyperswarm_rs.Swarm.{ConfigureCommand, Hyperswarm, ask, configure}

-- What a change of a topic's setting asks for: what is switched on.
abbrev pub asks : Topic → TopicConfig → TopicConfig → List Call
asks topic old new =
    (if new.announce && not old.announce then announces topic ∷ [] else [])
    ++ (if new.lookup && not old.lookup then looks_up topic ∷ [] else [])

-- What a sequence of settings of one topic asks for.
abbrev pub asks_all : Topic → TopicConfig → List TopicConfig → List Call
asks_all topic old [] = []
asks_all topic old (new ∷ rest) = asks topic old new ++ asks_all topic new rest

-- The settings that the commands give a topic.
abbrev pub settings_of : Topic → List ConfigureCommand → List TopicConfig
settings_of topic [] = []
settings_of topic ((t, config) ∷ commands) =
    let rest = settings_of topic commands in if same t topic then config ∷ rest else rest

-- The calls that are about a topic.
abbrev pub about : Topic → List Call → List Call
about topic [] = []
about topic (looks_up t ∷ calls) =
    let rest = about topic calls in if same t topic then looks_up t ∷ rest else rest
about topic (announces t ∷ calls) =
    let rest = about topic calls in if same t topic then announces t ∷ rest else rest
about topic (polls ∷ calls) = about topic calls

about-append :
    (topic : Topic) (xs ys : List Call) → about topic (xs ++ ys) ≡ about topic xs ++ about topic ys
about-append topic [] ys = refl
about-append topic (looks_up t ∷ xs) ys = ground (arith, about-append topic xs ys)
about-append topic (announces t ∷ xs) ys = ground (arith, about-append topic xs ys)
about-append topic (polls ∷ xs) ys = about-append topic xs ys

-- What a change of one topic asks for is about that topic.
about-asks :
    (a b : Topic) (old new : TopicConfig)
    → about b (asks a old new) ≡ (if same a b then asks b old new else [])
about-asks a b old new = ground arith

pub asks_all-step :
    (b : Bool) (t : Topic) (old new : TopicConfig) (rest : List TopicConfig)
    → (if b then asks t old new else []) ++ asks_all t (if b then new else old) rest
      ≡ asks_all t old (if b then new ∷ rest else rest)
asks_all-step true t old new rest = refl
asks_all-step false t old new rest = refl

-- The setting of a topic.
abbrev pub setting : {D S Q : Type 0} → Topic → Hyperswarm D S Q → TopicConfig
setting topic s = unwrap_or (find topic s.topics) topic_default

module _ {D S T Q : Type 0} (discovery : Discovery D) (transport : Transport S T)
    (channel : Channel Q ConfigureCommand) where
  -- The commands in turn.
  unfoldable pub configure_all :
      List ConfigureCommand → Hyperswarm D S Q → Outcome (Hyperswarm D S Q)
  configure_all [] s = returns s
  configure_all ((topic, config) ∷ commands) s =
      Outcomes.◌>>=◌ (configure discovery transport channel topic config s) (configure_all commands)

module _ {D : Type 0} (discovery : Discovery D) (topic : Topic) where
  announce-log :
      (b : Bool) (r : Recorded D) {r' : Recorded D}
      → (if b then (recording discovery).announce topic r else returns r) ≡ returns r'
      → r'.log ≡ r.log ++ (if b then announces topic ∷ [] else [])
  announce-log true r e = log-announce discovery r topic e
  announce-log false r e = rw append-nil (ground arith)

  lookup-log :
      (b : Bool) (r : Recorded D) {r' : Recorded D}
      → (if b then (recording discovery).lookup topic r else returns r) ≡ returns r'
      → r'.log ≡ r.log ++ (if b then looks_up topic ∷ [] else [])
  lookup-log true r e = log-lookup discovery r topic e
  lookup-log false r e = rw append-nil (ground arith)

module _ {D S T Q : Type 0} (discovery : Discovery D) (transport : Transport S T)
    (channel : Channel Q ConfigureCommand) where
  ask-log :
      (topic : Topic) (config old : TopicConfig) (r : Recorded D) {r' : Recorded D}
      → ask (recording discovery) transport channel topic config old r ≡ returns r'
      → r'.log ≡ r.log ++ asks topic old config
  unfolding ask
  ask-log topic config old r e =
      let p =
        >>=-eq-returns
          (if config.announce && not old.announce
            then (recording discovery).announce topic r
            else returns r)
          _ e in
      lookup-log discovery topic (config.lookup && not old.lookup) p.0 p.2
      ∙ ap
          (λ (xs : List Call).
            xs ++ (if config.lookup && not old.lookup then looks_up topic ∷ [] else []))
          (announce-log discovery topic (config.announce && not old.announce) r p.1)
      ∙ append_assoc r.log _ _

  configure-log :
      (topic : Topic) (config : TopicConfig) (s : Hyperswarm (Recorded D) S Q)
      {s' : Hyperswarm (Recorded D) S Q}
      → configure (recording discovery) transport channel topic config s ≡ returns s'
      → (s'.discovery.log ≡ s.discovery.log ++ asks topic (setting topic s) config)
        × (s'.topics ≡ insert topic config (remove topic s.topics))
  unfolding configure
  configure-log topic config s e =
      let old = setting topic s in
      let p =
        >>=-eq-returns (ask (recording discovery) transport channel topic config old s.discovery) _
          e in
      ground (arith, p.2, ask-log topic config old s.discovery p.1)

  -- What one command does to a topic `t`, its own or another.
  pub configure-about :
      (t topic : Topic) (config : TopicConfig) (s : Hyperswarm (Recorded D) S Q)
      {s' : Hyperswarm (Recorded D) S Q}
      → configure (recording discovery) transport channel topic config s ≡ returns s'
      → (about t s'.discovery.log
          ≡ about t s.discovery.log ++ (if same topic t then asks t (setting t s) config else []))
        × (setting t s' ≡ (if same topic t then config else setting t s))
  configure-about t topic config s e =
      let p = configure-log topic config s e in
      (
        ap (about t) p.0
            ∙ about-append t s.discovery.log _
            ∙ ap (◌++◌ (about t s.discovery.log))
                (ground (arith, about-asks topic t (setting topic s) config)),
        ground (
          arith,
          p.1,
          find-insert topic t config (remove topic s.topics),
          find-remove topic t s.topics,
        ),
      )

  -- For every topic and every sequence of commands, of this topic and of others, that is configured
  -- to its end over a discovery that keeps a record: what the discovery was asked about the topic is
  -- what it had been asked before, and then, for each command of that topic in turn, an announcement
  -- if the command switches announcing on and the topic's setting before it had it off, and a lookup
  -- likewise.
  pub configure_all-about :
      (t : Topic) (commands : List ConfigureCommand) (s : Hyperswarm (Recorded D) S Q)
      {s' : Hyperswarm (Recorded D) S Q}
      → configure_all (recording discovery) transport channel commands s ≡ returns s'
      → about t s'.discovery.log
        ≡ about t s.discovery.log ++ asks_all t (setting t s) (settings_of t commands)
  unfolding configure_all
  configure_all-about t [] s e = rw append-nil (ground arith)
  configure_all-about t ((topic, config) ∷ commands) s e =
      let p =
        >>=-eq-returns (configure (recording discovery) transport channel topic config s) _ e in
      let (logged, set) = configure-about t topic config s p.1 in
      let rest = configure_all-about t commands p.0 p.2 in
      rest
      ∙ ap₂ (λ (xs : List Call) (c : TopicConfig). xs ++ asks_all t c (settings_of t commands))
          logged set
      ∙ append_assoc (about t s.discovery.log) _ _
      ∙ ap (◌++◌ (about t s.discovery.log))
          (asks_all-step (same topic t) t (setting t s) config (settings_of t commands))
