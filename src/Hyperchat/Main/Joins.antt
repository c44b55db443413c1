-- ===== src/Hyperchat/Main/Joins.antt =====
-- examples/hyperchat.rs: the topics that are joined.
use hyperswarm_rs.Prelude.{
  ℕ, ◌≤◌, ◌<◌, ◌≡◌, refl, sym, ap, ◌∙◌, Bool, true, false, if◌then◌else◌, some, none, List, [], ◌∷◌,
  ◌++◌, map, append-nil, append_assoc, returns, arith, length, All,
}
use hyperswarm_rs.Prelude.Outcomes
use hyperswarm_rs.Prelude.Outcomes.{chain_returns}
use hyperswarm_rs.Channel.{Channel, IsFifo}
use hyperswarm_rs.Config.{announce_and_lookup, unwrap_or, topic_default}
use hyperswarm_rs.Util.{Blake2b, hash_topic}
use hyperswarm_rs.Discovery.{Topic, Discovery}
use hyperswarm_rs.Discovery.Calls.{announces, looks_up}
use hyperswarm_rs.Discovery.Recording.{Recorded, recording}
use hyperswarm_rs.Discovery.Total.{IsTotal, recording-IsTotal}
use hyperswarm_rs.Transport.{Transport}
use hyperswarm_rs.Swarm.{ConfigureCommand, Hyperswarm, handle_configure, poll_commands}
use hyperswarm_rs.Swarm.Topics.{find, same}
use hyperswarm_rs.Swarm.Configure.{about, asks_all, settings_of, configure_all, configure_all-about}
use hyperswarm_rs.Swarm.Order.{last_or, configure_all-find}
use hyperswarm_rs.Swarm.Commands.{poll_commands-drains}
use hyperswarm_rs.Swarm.Total.{configure_all-Within}
use hyperswarm_rs.Hyperchat.Main.{discovery_ns_buf, join}

-- The documented behaviour of the hasher: it takes keys of at most 64 bytes, and gives as many bytes as it
-- was made for, 32. `digest` is the hash of some bytes under a key.
pub record IsHash {H : Type 0} (blake : Blake2b H) : Type 0 where
  pub digest : List ℕ → List ℕ → List ℕ
  pub hashes :
      (bytes key : List ℕ)
      → length key ≤ 64
      → (h : H) × (blake.with_key 32 key ≡ returns h)
        × (blake.finalize (blake.update bytes h) ≡ digest bytes key)
  pub length_digest : (bytes key : List ℕ) → length (digest bytes key) ≡ 32

module _ {H : Type 0} {blake : Blake2b H} (hash : IsHash blake) where
  -- The hash of a topic, in the namespace of the chat.
  abbrev pub hash_of : List ℕ → Topic
  hash_of topic = hash.digest discovery_ns_buf topic

  abbrev pub joining : List (List ℕ) → List ConfigureCommand
  joining topics = map (λ topic. (hash_of topic, announce_and_lookup)) topics

  -- Whether a hash is that of one of the topics.
  abbrev pub is_joined : Topic → List (List ℕ) → Bool
  is_joined other [] = false
  is_joined other (topic ∷ topics) =
      let rest = is_joined other topics in if same (hash_of topic) other then true else rest

  length-joining : (topics : List (List ℕ)) → length (joining topics) ≡ length topics
  length-joining [] = refl
  length-joining (topic ∷ topics) = omega (arith, length-joining topics)

  hash_topic-returns :
      (topic : List ℕ)
      → length topic ≤ 64
      → hash_topic blake discovery_ns_buf topic ≡ returns (hash_of topic)
  unfolding hash_topic
  hash_topic-returns topic short =
      let (h, made, hashed) = hash.hashes discovery_ns_buf topic short in
      ground (arith, made, hashed, hash.length_digest discovery_ns_buf topic)

  -- A topic that is joined already asks for nothing more.
  asks_all-again :
      (other : Topic) (topics : List (List ℕ))
      → asks_all other announce_and_lookup (settings_of other (joining topics)) ≡ []
  asks_all-again other [] = refl
  asks_all-again other (topic ∷ topics) = ground (arith, asks_all-again other topics)

  asks_all-joining :
      (other : Topic) (topics : List (List ℕ))
      → asks_all other topic_default (settings_of other (joining topics))
        ≡ (if is_joined other topics then announces other ∷ looks_up other ∷ [] else [])
  asks_all-joining other [] = refl
  asks_all-joining other (topic ∷ topics) =
      ground (arith, asks_all-again other topics, asks_all-joining other topics)

  last_or-again :
      (other : Topic) (topics : List (List ℕ))
      → last_or (some announce_and_lookup) (settings_of other (joining topics))
        ≡ some announce_and_lookup
  last_or-again other [] = refl
  last_or-again other (topic ∷ topics) = ground (arith, last_or-again other topics)

  last_or-joining :
      (other : Topic) (topics : List (List ℕ))
      → last_or none (settings_of other (joining topics))
        ≡ (if is_joined other topics then some announce_and_lookup else none)
  last_or-joining other [] = refl
  last_or-joining other (topic ∷ topics) =
      ground (arith, last_or-again other topics, last_or-joining other topics)

module _ {D S T Q H : Type 0} (d : Discovery D) (t : Transport S T)
    (channel : Channel Q ConfigureCommand) (fifo : IsFifo channel) {blake : Blake2b H}
    (hash : IsHash blake) where
  join-sends :
      (topics : List (List ℕ)) (s : Hyperswarm D S Q)
      → All (λ topic. length topic ≤ 64) topics
      → (q : Q) × (join d t channel blake topics s ≡ returns (record s { commands = q }))
        × (fifo.contents q ≡ fifo.contents s.commands ++ joining hash topics)
  unfolding join handle_configure
  join-sends [] s short = (s.commands, refl, sym (append-nil _))
  join-sends (topic ∷ topics) s (short, shorts) =
      let (q, sent, holds) = fifo.sends (hash_of hash topic, announce_and_lookup) s.commands in
      let (q', joined, all) = join-sends topics (record s { commands = q }) shorts in
      (
        q',
        chain_returns (hash_topic blake discovery_ns_buf topic) _
            (hash_topic-returns hash topic short)
            (chain_returns _ (join d t channel blake topics)
              (ap
                (λ sending.
                  Outcomes.◌>>=◌ (Outcomes.unwrap sending) λ q. returns (record s { commands = q }))
                sent)
              joined),
        all
            ∙ ap (λ xs. xs ++ joining hash topics) holds
            ∙ append_assoc (fifo.contents s.commands) _ _,
      )

module _ {D S T Q H : Type 0} (d : Discovery D) (t : Transport S T)
    (channel : Channel Q ConfigureCommand) (fifo : IsFifo channel) {blake : Blake2b H}
    (hash : IsHash blake) where
  -- What has become of any hash, of a topic that was joined or not, since the state `s`.
  pub record Joined (topics : List (List ℕ)) (s s' : Hyperswarm (Recorded D) S Q) (other : Topic)
      : Type 0 where
    pub setting :
        find other s'.topics
        ≡ (if is_joined hash other topics then some announce_and_lookup else none)
    pub asked :
        about other s'.discovery.log
        ≡ about other s.discovery.log
          ++ (if is_joined hash other topics then announces other ∷ looks_up other ∷ [] else [])

  configure_all-Joined :
      (topics : List (List ℕ)) (s : Hyperswarm (Recorded D) S Q) {s' : Hyperswarm (Recorded D) S Q}
      (other : Topic)
      → s.topics ≡ []
      → configure_all (recording d) t channel (joining hash topics) s ≡ returns s'
      → Joined topics s s' other
  unfolding find
  configure_all-Joined topics s other none_set e =
      let unset : find other s.topics ≡ none = ap (find other) none_set in
      record {
        setting =
            configure_all-find (recording d) t channel other (joining hash topics) s e
            ∙ ap (λ old. last_or old (settings_of other (joining hash topics))) unset
            ∙ last_or-joining hash other topics;
        asked =
            configure_all-about d t channel other (joining hash topics) s e
            ∙ ap
                (λ old.
                  about other s.discovery.log
                  ++ asks_all other (unwrap_or old topic_default)
                      (settings_of other (joining hash topics)))
                unset
            ∙ ap (◌++◌ (about other s.discovery.log)) (asks_all-joining hash other topics);
      }

  -- Where the channel of commands is unbounded, open and empty, the swarm has no topics yet, its
  -- discovery keeps a record and its lookups and announcements return, the hasher does as
  -- documented, and no topic is longer than the 64 bytes that it takes: joining the topics of the
  -- command line returns, and so does the swarm's loop over the commands, with more rounds than
  -- there are topics. Then the hash of each of these topics is set to be announced and looked up,
  -- and one announcement and one lookup of it, in this order, have been asked of the discovery, also
  -- where topics repeat or share a hash; and any other topic is not set, and nothing was asked about
  -- it.
  pub join-Joined :
      IsTotal d
      → (topics : List (List ℕ)) (fuel : ℕ) (s : Hyperswarm (Recorded D) S Q) → s.topics ≡ []
      → fifo.contents s.commands ≡ []
      → All (λ topic. length topic ≤ 64) topics
      → length topics < fuel
      → (joined polled : Hyperswarm (Recorded D) S Q) × (join (recording d) t channel blake topics s
          ≡ returns joined)
        × (poll_commands (recording d) t channel fuel joined ≡ returns polled)
        × ((other : Topic) → Joined topics s polled other)
  join-Joined total topics fuel s none_set idle short enough =
      let (q, joins, holds) = join-sends (recording d) t channel fifo hash topics s short in
      let only : fifo.contents q ≡ joining hash topics =
        holds ∙ ap (λ xs. xs ++ joining hash topics) idle in
      let (u, all, less) =
        configure_all-Within (recording-IsTotal total) t channel (joining hash topics)
          (record s { commands = q }) in
      let (q', drained, empty) =
        poll_commands-drains (recording d) t channel fifo fuel (record s { commands = q })
          (rw only (rw (length-joining hash topics) enough))
          (ap
              (λ commands.
                configure_all (recording d) t channel commands (record s { commands = q }))
              only
            ∙ all) in
      (
        record s { commands = q },
        record u { commands = q' },
        joins,
        drained,
        λ other.
            let joined =
              configure_all-Joined topics (record s { commands = q }) other none_set all in
            record { setting = joined.setting; asked = joined.asked },
      )
