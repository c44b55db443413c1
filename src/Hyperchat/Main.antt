-- ===== src/Hyperchat/Main.antt =====
-- examples/hyperchat.rs: `main`, its two commands, and the task that prints.
pub mod Joins
pub mod Names
use hyperswarm_rs.Prelude.{
  ℕ, Option, none, some, List, [], ◌∷◌, String, IoResult, Outcome, returns, false,
}
use hyperswarm_rs.Prelude.Outcomes
use hyperswarm_rs.Net.{SocketAddr}
use hyperswarm_rs.Channel.{Channel}
use hyperswarm_rs.Config.{
  DhtSettings, Config, default, set_bootstrap_nodes, announce_and_lookup, unwrap_or,
}
use hyperswarm_rs.Util.{Blake2b, hash_topic}
use hyperswarm_rs.Bootstrap.{DhtNode}
use hyperswarm_rs.Bootstrap
use hyperswarm_rs.Discovery.{Discovery}
use hyperswarm_rs.Transport.{Transport}
use hyperswarm_rs.Swarm.{ConfigureCommand, Hyperswarm, handle_configure}
use hyperswarm_rs.Hyperchat.Broadcast.{IncomingMessage}

-- The bytes of `hyperchat:v0`.
abbrev pub discovery_ns_buf : List ℕ
discovery_ns_buf = 104 ∷ 121 ∷ 112 ∷ 101 ∷ 114 ∷ 99 ∷ 104 ∷ 97 ∷ 116 ∷ 58 ∷ 118 ∷ 48 ∷ []

-- `Command::Bootstrap`: the configuration of the node, and the node run.
module _ {C A B D : Type 0} (dht : DhtSettings C A) (node : DhtNode C B D) where
  unfoldable pub node_config : List A → C
  node_config [] = dht.empty_bootstrap_nodes dht.default
  node_config (a ∷ bootstrap) = dht.set_bootstrap_nodes dht.default (a ∷ bootstrap)

  unfoldable pub run_bootstrap : List A → Option SocketAddr → IoResult (SocketAddr × D)
  run_bootstrap bootstrap bind = Bootstrap.run dht node (Bootstrap.new (node_config bootstrap) bind)

-- `Command::Join`: the configuration, given the text `127.0.0.1:49737` as an address, and the topics.
unfoldable pub join_config : {C A : Type 0} → DhtSettings C A → A → List A → Config C
join_config dht local [] = set_bootstrap_nodes dht default (local ∷ [])
join_config dht local (a ∷ bootstrap) = set_bootstrap_nodes dht default (a ∷ bootstrap)

module _ {D S T Q H : Type 0} (discovery : Discovery D) (transport : Transport S T)
    (channel : Channel Q ConfigureCommand) (blake : Blake2b H) where
  unfoldable pub join : List (List ℕ) → Hyperswarm D S Q → Outcome (Hyperswarm D S Q)
  join [] s = returns s
  join (topic ∷ topics) s = Outcomes.◌>>=◌ (hash_topic blake discovery_ns_buf topic) λ hash.
      Outcomes.◌>>=◌ (handle_configure discovery transport channel hash announce_and_lookup s)
        (join topics)

-- A line that is printed: `is now known as`, or a message under a name.
pub data Line : Type 0 where
  known_as : (from content : String) → Line
  says : (from name content : String) → Line

module _ (from_utf8 : List ℕ → Option String) where
  abbrev pub text_of : IncomingMessage → String
  text_of message = unwrap_or (from_utf8 message.content) "<invalid utf8>"

  -- The loop of the task that prints, with the `name` that it keeps.
  unfoldable pub print : Option String → List IncomingMessage → List Line
  print name [] = []
  print none (message ∷ messages) =
      known_as message.from (text_of message) ∷ print (some (text_of message)) messages
  print (some name) (message ∷ messages) =
      says message.from name (text_of message) ∷ print (some name) messages
