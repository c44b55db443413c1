-- ===== src/Swarm.antt =====
-- src/swarm.rs: the swarm, which joins topics, finds peers and connects to them.
-- The discovery and the transport are taken by their traits, and the channel of commands by its
-- interface.
pub mod Topics
pub mod Configure
pub mod Commands
pub mod Calls
pub mod Books
pub mod Quiet
pub mod Stalls
pub mod Drives
pub mod Total
pub mod Order
pub mod Due
pub mod Handles
pub mod Balance
use hyperswarm_rs.Prelude.{
  ℕ, zero, suc, Bool, true, false, not, ◌&&◌, Option, none, some, List, [], ◌∷◌, IoResult, ok, err,
  Poll, pending, ready, Next, Outcome, returns, panics, out_of_fuel, if◌then◌else◌,
}
use hyperswarm_rs.Prelude.Outcomes
use hyperswarm_rs.Prelude.Outcomes.{and_then}
use hyperswarm_rs.Net.{SocketAddr, port_of}
use hyperswarm_rs.Channel.{Channel}
use hyperswarm_rs.Config.{TopicConfig, unwrap_or, topic_default}
use hyperswarm_rs.Discovery.{Topic, PeerInfo, addr, Discovery}
use hyperswarm_rs.Transport.{Connection, Transport}
use hyperswarm_rs.Swarm.Topics.{find, remove, insert}

abbrev pub ConfigureCommand : Type 0
ConfigureCommand = Topic × TopicConfig

-- `topics` is a `HashMap`; `commands` is the channel, of which the swarm keeps both ends.
pub record Hyperswarm (D S Q : Type 0) : Type 0 where
  pub topics : List (Topic × TopicConfig)
  pub discovery : D
  pub transport : S
  pub commands : Q

-- What the swarm's poll gives for a result of the transport: an error is only logged.
abbrev pub handed : {T : Type 0} → Next (Connection T) → Next (Connection T)
handed (ready (some (ok conn))) = ready (some (ok conn))
handed _ = pending

module _ {D S T Q : Type 0} (discovery : Discovery D) (transport : Transport S T)
    (channel : Channel Q ConfigureCommand) where
  -- `bind`, given how the transport is bound, its address, and how the discovery is bound to a port.
  unfoldable pub bind :
      Outcome (IoResult S)
      → (S → SocketAddr)
      → (ℕ → Outcome (IoResult D))
      → Outcome (IoResult (Hyperswarm D S Q))
  bind bind_transport local_addr bind_discovery = Outcomes.◌>>=◌ bind_transport λ bound.
      and_then bound λ transport'.
        Outcomes.◌>>=◌ (bind_discovery (port_of (local_addr transport'))) λ bound'.
          and_then bound' λ discovery'. returns (
            ok (record {
              topics = [];
              discovery = discovery';
              transport = transport';
              commands = channel.unbounded;
            }))

  -- The two guarded calls of `configure`.
  unfoldable pub ask : Topic → TopicConfig → TopicConfig → D → Outcome D
  ask topic config old d =
      Outcomes.◌>>=◌
        (if config.announce && not old.announce then discovery.announce topic d else returns d)
        λ d'. if config.lookup && not old.lookup then discovery.lookup topic d' else returns d'

  unfoldable pub configure : Topic → TopicConfig → Hyperswarm D S Q → Outcome (Hyperswarm D S Q)
  unfolding ask
  configure topic config s =
      let old = unwrap_or (find topic s.topics) topic_default in
      let topics = remove topic s.topics in
      Outcomes.◌>>=◌ (ask topic config old s.discovery)
        λ d. returns (record s { topics = insert topic config topics; discovery = d })

  -- SwarmHandle::configure: the handle has a sender of the same channel.
  unfoldable pub handle_configure :
      Topic → TopicConfig → Hyperswarm D S Q → Outcome (Hyperswarm D S Q)
  handle_configure topic config s =
      Outcomes.◌>>=◌ (Outcomes.unwrap (channel.try_send (topic, config) s.commands))
        λ q. returns (record s { commands = q })

  -- One round of the loop over the commands: what is received is configured, and `again` goes on.
  unfoldable pub on_command :
      (Hyperswarm D S Q → Outcome (Hyperswarm D S Q))
      → Poll (Option ConfigureCommand)
      → Hyperswarm D S Q
      → Outcome (Hyperswarm D S Q)
  unfolding configure
  on_command again pending s = returns s
  on_command again (ready none) s = returns s
  on_command again (ready (some (topic, config))) s =
      Outcomes.◌>>=◌ (configure topic config s) again

  -- The loop over the commands, cut off after `fuel` rounds.
  unfoldable pub poll_commands : ℕ → Hyperswarm D S Q → Outcome (Hyperswarm D S Q)
  unfolding on_command
  poll_commands zero s = out_of_fuel
  poll_commands (suc fuel) s =
      let (received, q) = channel.poll_next s.commands in
      on_command (poll_commands fuel) received (record s { commands = q })

  unfoldable pub poll_transport :
      Hyperswarm D S Q → Outcome (Next (Connection T) × Hyperswarm D S Q)
  poll_transport s =
      Outcomes.◌>>=◌ (transport.poll_next s.transport)
        λ (res, t). returns (handed res, record s { transport = t })

  -- What follows the poll of the discovery.
  unfoldable pub on_discovered :
      Next PeerInfo → Hyperswarm D S Q → Outcome (Next (Connection T) × Hyperswarm D S Q)
  unfolding poll_transport
  on_discovered pending s = poll_transport s
  on_discovered (ready none) s = poll_transport s
  on_discovered (ready (some (err e))) s = returns (ready (some (err e)), s)
  on_discovered (ready (some (ok peer_info))) s =
      poll_transport (record s { transport = transport.connect (addr peer_info) s.transport })

  unfoldable pub poll_discovery :
      Hyperswarm D S Q → Outcome (Next (Connection T) × Hyperswarm D S Q)
  unfolding on_discovered
  poll_discovery s =
      Outcomes.◌>>=◌ (discovery.poll_next s.discovery)
        λ (found, d). on_discovered found (record s { discovery = d })

  unfoldable pub poll_next : ℕ → Hyperswarm D S Q → Outcome (Next (Connection T) × Hyperswarm D S Q)
  unfolding poll_commands poll_discovery
  poll_next fuel s = Outcomes.◌>>=◌ (poll_commands fuel s) poll_discovery
