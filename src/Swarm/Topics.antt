-- ===== src/Swarm/Topics.antt =====
-- src/swarm.rs: the `HashMap` of topics, as an association list.
use hyperswarm_rs.Prelude.{
  ◌≡◌, Bool, Option, none, some, List, [], ◌∷◌, arith, ℕ_discrete, if◌then◌else◌, is_yes,
}
use hyperswarm_rs.Config.{TopicConfig}
use hyperswarm_rs.Discovery.{Topic}

unfoldable pub Topic-discrete : Discrete Topic
unfolding ℕ_discrete
Topic-discrete = hlevel ℕ_discrete

abbrev pub same : Topic → Topic → Bool
same a b = is_yes (Topic-discrete a b)

unfoldable pub find : Topic → List (Topic × TopicConfig) → Option TopicConfig
find topic [] = none
find topic ((t, c) ∷ rest) = if same t topic then some c else find topic rest

unfoldable pub remove : Topic → List (Topic × TopicConfig) → List (Topic × TopicConfig)
remove topic [] = []
remove topic ((t, c) ∷ rest) =
    let others = remove topic rest in if same t topic then others else (t, c) ∷ others

unfoldable pub insert :
    Topic → TopicConfig → List (Topic × TopicConfig) → List (Topic × TopicConfig)
unfolding remove
insert topic config topics = (topic, config) ∷ remove topic topics

pub find-remove :
    (a b : Topic) (topics : List (Topic × TopicConfig))
    → find b (remove a topics) ≡ (if same a b then none else find b topics)
unfolding find remove
find-remove a b [] = ground arith
find-remove a b ((t, c) ∷ rest) = ground (arith, find-remove a b rest)

pub find-insert :
    (a b : Topic) (config : TopicConfig) (topics : List (Topic × TopicConfig))
    → find b (insert a config topics) ≡ (if same a b then some config else find b topics)
unfolding find insert
find-insert a b config topics = ground (arith, find-remove a b topics)
