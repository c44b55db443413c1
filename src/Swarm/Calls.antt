-- ===== src/Swarm/Calls.antt =====
-- What a client does with a swarm of src/swarm.rs, and what comes of it.
use hyperswarm_rs.Prelude.{ℕ, List, [], ◌∷◌, Next, Outcome, returns}
use hyperswarm_rs.Prelude.Outcomes
use hyperswarm_rs.Channel.{Channel}
use hyperswarm_rs.Config.{TopicConfig}
use hyperswarm_rs.Discovery.{Topic, Discovery}
use hyperswarm_rs.Transport.{Connection, Transport}
use hyperswarm_rs.Swarm.{ConfigureCommand, Hyperswarm, configure, handle_configure, poll_next}

-- A topic is configured on the swarm itself or through a handle, or the swarm is polled.
pub data Call : Type 0 where
  configures sends : Topic → TopicConfig → Call
  polls : Call

module _ {D S T Q : Type 0} (discovery : Discovery D) (transport : Transport S T)
    (channel : Channel Q ConfigureCommand) (fuel : ℕ) where
  -- The calls in turn, with the results of the polls.
  unfoldable pub run :
      List Call → Hyperswarm D S Q → Outcome (List (Next (Connection T)) × Hyperswarm D S Q)
  run [] s = returns ([], s)
  run (configures topic config ∷ calls) s =
      Outcomes.◌>>=◌ (configure discovery transport channel topic config s) (run calls)
  run (sends topic config ∷ calls) s =
      Outcomes.◌>>=◌ (handle_configure discovery transport channel topic config s) (run calls)
  run (polls ∷ calls) s =
      Outcomes.◌>>=◌ (poll_next discovery transport channel fuel s) λ (result, s').
        Outcomes.◌>>=◌ (run calls s') λ (results, s''). returns (result ∷ results, s'')
