-- ===== src/Tests/HandleTests.antt =====
-- Runs of the model of src/swarm.rs with commands from handles.
use hyperswarm_rs.Prelude.{
  ℕ, ◌≡◌, refl, List, [], ◌∷◌, ◌++◌, Next, Outcome, returns, panics, out_of_fuel,
}
use hyperswarm_rs.Channel.{list_channel, list_channel-IsFifo}
use hyperswarm_rs.Config.{both}
use hyperswarm_rs.Discovery.{addr}
use hyperswarm_rs.Discovery.Recording
use hyperswarm_rs.Transport.{Connection}
use hyperswarm_rs.Transport.Recording as TransportRecording
use hyperswarm_rs.Swarm.{configure, handle_configure, poll_next}
use hyperswarm_rs.Swarm.Topics.{find, remove, insert, Topic-discrete}
use hyperswarm_rs.Swarm.Calls.{Call, sends, polls, run}
use hyperswarm_rs.Swarm.Configure.{about, asks_all, setting, settings_of}
use hyperswarm_rs.Swarm.Handles.{sent, run-asks}
use hyperswarm_rs.Tests.Doubles.{topic_of, scripted_discovery, scripted_transport}
use hyperswarm_rs.Tests.SwarmTests.{start, State, quiet}

-- Commands of two topics, before and after a poll.
abbrev handled : List Call
handled =
    sends (topic_of 1) both
    ∷ polls
    ∷ sends (topic_of 1) quiet
    ∷ sends (topic_of 2) both
    ∷ sends (topic_of 1) both
    ∷ []

abbrev Ran : Type 0
Ran = List (Next (Connection ℕ)) × State

abbrev ran_of : Outcome Ran → Ran
ran_of (returns ran) = ran
ran_of panics = ([], start)
ran_of out_of_fuel = ([], start)

abbrev handled_run : Ran
handled_run = ran_of (
    run (Recording.recording scripted_discovery) (TransportRecording.recording scripted_transport)
      list_channel 9 (handled ++ polls ∷ []) start)

run-asks_example :
    (about (topic_of 1) handled_run.1.discovery.log
      ≡ about (topic_of 1) start.discovery.log
        ++ asks_all
            (topic_of 1)
            (setting (topic_of 1) start)
            (settings_of (topic_of 1) (sent handled)))
    × (handled_run.1.commands ≡ [])
unfolding run handle_configure poll_next configure find remove insert Topic-discrete addr
run-asks_example =
    run-asks scripted_discovery (TransportRecording.recording scripted_transport) list_channel
      list_channel-IsFifo (topic_of 1) 9 handled start {results = handled_run.0}
      {s' = handled_run.1} refl refl
