-- ===== src/Tests/SwarmTests.antt =====
-- Runs of the model of src/swarm.rs.
use hyperswarm_rs.Prelude.{
  ℕ, ◌≡◌, refl, true, false, some, List, [], ◌∷◌, ◌++◌, external, ok, err, pending, ready, Next,
  returns, panics, out_of_fuel, arith, inr,
}
use hyperswarm_rs.Net.{SocketAddr}
use hyperswarm_rs.Channel.{list_channel, list_channel-IsFifo}
use hyperswarm_rs.Config.{TopicConfig, both}
use hyperswarm_rs.Discovery.{PeerInfo, dht, addr}
use hyperswarm_rs.Discovery.Calls.{looks_up, announces}
use hyperswarm_rs.Discovery.Combined.{CombinedDiscovery, combined_discovery}
use hyperswarm_rs.Discovery.Dht.{HyperDhtEvent, DhtDiscovery, dht_discovery}
use hyperswarm_rs.Discovery.Recording
use hyperswarm_rs.Transport.{Connection}
use hyperswarm_rs.Transport.Recording as TransportRecording
use hyperswarm_rs.Swarm.{
  ConfigureCommand, Hyperswarm, configure, handle_configure, bind, poll_next, poll_commands,
}
use hyperswarm_rs.Swarm.Topics.{find, remove, insert, Topic-discrete}
use hyperswarm_rs.Swarm.Calls.{Call, sends, polls, run}
use hyperswarm_rs.Swarm.Configure.{
  about, asks_all, setting, settings_of, configure_all, configure_all-about,
}
use hyperswarm_rs.Swarm.Commands.{poll_commands-drains}
use hyperswarm_rs.Swarm.Order.{configure_all-order}
use hyperswarm_rs.Swarm.Books.{Watched, Balanced}
use hyperswarm_rs.Swarm.Balance.{bind-Balanced}
use hyperswarm_rs.Swarm.Stalls.{poll_next-stalls}
use hyperswarm_rs.Tests.Doubles.{
  peer, topic_of, scripted_discovery, scripted_transport, scripted_dht,
}

abbrev Found : Type 0
Found = List (Next PeerInfo)

abbrev Opened : Type 0
Opened = List SocketAddr × List (Next (Connection ℕ))

abbrev pub State : Type 0
State = Watched Found Opened ℕ (List ConfigureCommand)

-- The peer 3 is found, and a connection to it comes about after an error.
abbrev peer_found : Next PeerInfo
peer_found =
    ready
      (some (ok (record { peer_addr = peer 3; topic = some (topic_of 1); discovery_method = dht })))

abbrev peer_of : ℕ → PeerInfo
peer_of n = record { peer_addr = peer n; topic = some (topic_of 1); discovery_method = dht }

abbrev connected : Next (Connection ℕ)
connected =
    ready
      (some (ok (record { inner = 3; peer_addr = peer 3; is_initiator = true; protocol = "tcp" })))

abbrev failed : Next (Connection ℕ)
failed = ready (some (err (external 111)))

abbrev pub quiet : TopicConfig
quiet = record { announce = true; lookup = false }

abbrev pub start : State
start = record {
  topics = [];
  discovery = record { inner = peer_found ∷ []; log = []; results = [] };
  transport = record { inner = ([], failed ∷ connected ∷ []); dialled = []; results = [] };
  commands = [];
}

abbrev commands : List ConfigureCommand
commands = (topic_of 1, both) ∷ (topic_of 2, both) ∷ (topic_of 1, quiet) ∷ (topic_of 1, both) ∷ []

abbrev configured : State
configured = record start {
  topics = (topic_of 1, both) ∷ (topic_of 2, both) ∷ [];
  discovery = record {
    inner = peer_found ∷ [];
    log =
        announces (topic_of 1)
        ∷ looks_up (topic_of 1)
        ∷ announces (topic_of 2)
        ∷ looks_up (topic_of 2)
        ∷ looks_up (topic_of 1)
        ∷ [];
    results = [];
  };
}

commands_run :
    configure_all
      (Recording.recording scripted_discovery)
      (TransportRecording.recording scripted_transport)
      list_channel
      commands
      start
    ≡ returns configured
unfolding configure_all configure find remove insert Topic-discrete
commands_run = refl

configure_all-about_example :
    about (topic_of 1) configured.discovery.log
    ≡ about (topic_of 1) start.discovery.log
      ++ asks_all (topic_of 1) (setting (topic_of 1) start) (settings_of (topic_of 1) commands)
configure_all-about_example =
    configure_all-about scripted_discovery (TransportRecording.recording scripted_transport)
      list_channel (topic_of 1) commands start commands_run

-- The commands for the two topics in another order.
abbrev reordered : List ConfigureCommand
reordered = (topic_of 1, both) ∷ (topic_of 1, quiet) ∷ (topic_of 1, both) ∷ (topic_of 2, both) ∷ []

abbrev state_after : List ConfigureCommand → State
state_after given =
    elim (configure_all (Recording.recording scripted_discovery)
      (TransportRecording.recording scripted_transport) list_channel given start) [
        | returns s ↦ s
        | panics ↦ start
        | out_of_fuel ↦ start
      ]

configure_all-order_example :
    (find (topic_of 1) configured.topics ≡ find (topic_of 1) (state_after reordered).topics)
    × (about (topic_of 1) configured.discovery.log
        ≡ about (topic_of 1) (state_after reordered).discovery.log)
unfolding configure_all configure find remove insert Topic-discrete
configure_all-order_example =
    configure_all-order scripted_discovery (TransportRecording.recording scripted_transport)
      list_channel (topic_of 1) commands reordered start {s'' = state_after reordered} refl
      commands_run refl

poll_commands-drains_example :
    (q : List ConfigureCommand) × (poll_commands
        (Recording.recording scripted_discovery)
        (TransportRecording.recording scripted_transport)
        list_channel
        5
        (record start { commands = commands })
      ≡ returns (record configured { commands = q }))
    × (q ≡ [])
unfolding configure_all configure find remove insert Topic-discrete
poll_commands-drains_example =
    poll_commands-drains (Recording.recording scripted_discovery)
      (TransportRecording.recording scripted_transport) list_channel list_channel-IsFifo 5
      (record start { commands = commands }) {t = record configured { commands = commands }}
      (omega arith) refl

abbrev session : List Call
session = sends (topic_of 1) both ∷ polls ∷ polls ∷ []

abbrev end_state : State
end_state = record {
  topics = (topic_of 1, both) ∷ [];
  discovery = record {
    inner = [];
    log = announces (topic_of 1) ∷ looks_up (topic_of 1) ∷ [];
    results = peer_found ∷ pending ∷ [];
  };
  transport = record {
    inner = (peer 3 ∷ [], []);
    dialled = peer 3 ∷ [];
    results = failed ∷ connected ∷ [];
  };
  commands = [];
}

session_runs :
    run
      (Recording.recording scripted_discovery)
      (TransportRecording.recording scripted_transport)
      list_channel
      2
      session
      start
    ≡ returns (pending ∷ connected ∷ [], end_state)
unfolding run handle_configure poll_next configure find remove insert Topic-discrete addr
session_runs = refl

bind-Balanced_example : Balanced (pending ∷ connected ∷ []) end_state
unfolding bind
bind-Balanced_example =
    bind-Balanced scripted_discovery scripted_transport list_channel ([], failed ∷ connected ∷ [])
      (λ r. peer 0) (λ port. peer_found ∷ []) 2 session {s = start} refl session_runs

-- Two peers are queued, and the connection to the first of them fails.
abbrev waiting :
    Hyperswarm
      (CombinedDiscovery (DhtDiscovery (List HyperDhtEvent)) Found)
      Opened
      (List ConfigureCommand)
waiting = record {
  topics = [];
  discovery = record {
    dht = record {
      state = [];
      is_bootstrapped = true;
      announce_port = 7;
      pending_commands = [];
      pending_events = peer_of 3 ∷ peer_of 4 ∷ [];
    };
    mdns = [];
  };
  transport = ([], failed ∷ []);
  commands = [];
}

poll_next-stalls_example :
    (s' : Hyperswarm
      (CombinedDiscovery (DhtDiscovery (List HyperDhtEvent)) Found)
      Opened
      (List ConfigureCommand))
    × (poll_next
          (combined_discovery (dht_discovery scripted_dht 3) scripted_discovery)
          scripted_transport
          list_channel
          1
          waiting
        ≡ returns (pending, s'))
    × (s'.discovery.dht.pending_events ≡ peer_of 4 ∷ [])
unfolding poll_commands
poll_next-stalls_example =
    poll_next-stalls scripted_dht 2 scripted_discovery scripted_transport list_channel 1 waiting
      waiting (peer_of 3) (peer_of 4) [] failed refl refl refl (inr (external 111, refl))
