-- ===== src/Tests/SystemTests.antt =====
-- Runs of the models of src/ together.
use hyperswarm_rs.Prelude.{
  ℕ, ◌≡◌, refl, none, List, [], ◌∷◌, false, IoResult, external, ok, err, panics, out_of_fuel,
  pending, Next, Outcome, returns, arith,
}
use hyperswarm_rs.Net.{SocketAddr}
use hyperswarm_rs.Channel.{list_channel, list_channel-IsFifo}
use hyperswarm_rs.Config.{both}
use hyperswarm_rs.Discovery.Recording
use hyperswarm_rs.Discovery.MdnsConfig
use hyperswarm_rs.Discovery.Mdns.{MdnsDiscovery}
use hyperswarm_rs.Discovery.Mdns
use hyperswarm_rs.Discovery.Dht.{HyperDhtEvent, bootstrapped, lookup_result, DhtDiscovery}
use hyperswarm_rs.Discovery.Dht
use hyperswarm_rs.Transport.{Connection}
use hyperswarm_rs.Transport.Utp.{UtpStream}
use hyperswarm_rs.Transport.Combined.{CombinedStream}
use hyperswarm_rs.Transport.Recording as TransportRecording
use hyperswarm_rs.Swarm.{ConfigureCommand, bind, handle_configure, poll_next}
use hyperswarm_rs.Swarm.Topics.{find}
use hyperswarm_rs.Discovery.{addr, peer_info}
use hyperswarm_rs.Discovery.Combined.{announce, lookup}
use hyperswarm_rs.Discovery.Combined
use hyperswarm_rs.Swarm.Calls.{Call, sends, polls, run}
use hyperswarm_rs.Swarm.Books.{Watched}
use hyperswarm_rs.System.{bind_discoveries, Found, discoveries}
use hyperswarm_rs.System.Sources.{Sourced, bind-Sourced}
use hyperswarm_rs.System.Binds.{BindsOrFails, bind_whole-outcome}
use hyperswarm_rs.System.Returns.{Whole, poll_whole, poll_whole-returns}
use hyperswarm_rs.Tests.Doubles.{
  peer, topic_of, scripted_dht, scripted_dht-IsDraining, scripted_mdns, scripted_transport,
  addressed_tcp, addressed_utp,
}

-- The table bootstraps, and the locator hears one answer.
abbrev bind_found : ℕ → IoResult (Found scripted_dht 9 scripted_mdns)
bind_found =
    bind_discoveries scripted_dht 9 scripted_mdns (bootstrapped ∷ []) (1 ∷ [])
      (ok ((topic_of 7, peer 3) ∷ [])) (ok []) MdnsConfig.default

abbrev Opened : Type 0
Opened = List SocketAddr × List (Next (Connection ℕ))

abbrev State : Type 0
State = Watched (Found scripted_dht 9 scripted_mdns) Opened ℕ (List ConfigureCommand)

abbrev start : State
start = record {
  topics = [];
  discovery = record {
    inner = record {
      dht = record {
        state = record { inner = bootstrapped ∷ []; issued = []; seen = [] };
        is_bootstrapped = false;
        announce_port = 49737;
        pending_commands = [];
        pending_events = [];
      };
      mdns = record {
        announcer = 0;
        locator = (topic_of 7, peer 3) ∷ [];
        pending_commands = [];
        pending_future = none;
      };
    };
    log = [];
    results = [];
  };
  transport = record { inner = ([], []); dialled = []; results = [] };
  commands = [];
}

abbrev session : List Call
session = sends (topic_of 7) both ∷ polls ∷ polls ∷ polls ∷ []

abbrev state_of : {A : Type 0} → Outcome (A × State) → State
state_of (returns (a, s)) = s
state_of panics = start
state_of out_of_fuel = start

abbrev end_state : State
end_state = state_of (
    run (Recording.recording (discoveries scripted_dht 9 scripted_mdns))
      (TransportRecording.recording scripted_transport) list_channel 2 session start)

session_runs :
    run
      (Recording.recording (discoveries scripted_dht 9 scripted_mdns))
      (TransportRecording.recording scripted_transport)
      list_channel
      2
      session
      start
    ≡ returns (pending ∷ pending ∷ pending ∷ [], end_state)
unfolding run handle_configure poll_next find announce lookup Combined.poll_next Mdns.push_announce
    Mdns.push_lookup Dht.poll_next Dht.push_lookup Dht.push_announce Mdns.poll_next Mdns.located
session_runs = refl

bind-Sourced_example :
    Sourced scripted_dht 9 scripted_mdns scripted_transport list_channel 49737 start.discovery.inner
      (pending ∷ pending ∷ pending ∷ [])
      end_state
unfolding bind Combined.bind Mdns.bind Dht.bind
bind-Sourced_example =
    bind-Sourced scripted_dht 9 scripted_mdns scripted_transport list_channel list_channel-IsFifo
      ([], []) (λ r. peer 0) (bootstrapped ∷ []) (1 ∷ []) (ok ((topic_of 7, peer 3) ∷ [])) (ok [])
      MdnsConfig.default 2 session {s = start} refl session_runs

dials_three : end_state.transport.dialled ≡ peer 1 ∷ peer 2 ∷ peer 3 ∷ []
unfolding run handle_configure poll_next find announce lookup Combined.poll_next Mdns.push_announce
    Mdns.push_lookup Dht.poll_next Dht.push_lookup Dht.push_announce Mdns.poll_next Mdns.located
    addr peer_info
dials_three = refl

abbrev whole :
    Whole scripted_dht 9 scripted_mdns addressed_tcp addressed_utp
      (list_channel {A = ConfigureCommand})
whole = record {
  topics = [];
  discovery = record {
    dht = record {
      state = bootstrapped ∷ [];
      is_bootstrapped = false;
      announce_port = 49737;
      pending_commands = [];
      pending_events = [];
    };
    mdns = record {
      announcer = 0;
      locator = (topic_of 7, peer 3) ∷ [];
      pending_commands = [];
      pending_future = none;
    };
  };
  transport = record {
    tcp = record {
      addr = peer 0;
      incoming = record { local_addr = peer 0; accept = peer 5 ∷ [] };
      pending_connects = [];
    };
    utp = record { context = []; pending_connects = peer 6 ∷ []; incoming = [] };
    local_addr = peer 0;
    connected = [];
  };
  commands = (topic_of 7, both) ∷ [];
}

poll_whole-returns_example :
    (r : Next (Connection (CombinedStream SocketAddr (UtpStream SocketAddr)))
      × Whole scripted_dht 9 scripted_mdns addressed_tcp addressed_utp
          (list_channel {A = ConfigureCommand}))
    × (poll_whole scripted_dht 9 scripted_mdns addressed_tcp addressed_utp list_channel 2 whole
        ≡ returns r)
poll_whole-returns_example =
    poll_whole-returns scripted_dht 9 scripted_mdns addressed_tcp addressed_utp list_channel
      scripted_dht-IsDraining list_channel-IsFifo (λ stream. (stream, refl)) list_channel-IsFifo 2
      whole (omega arith) (omega arith)

-- The table is not made.
bind_whole-outcome_example :
    BindsOrFails scripted_dht 9 scripted_mdns addressed_tcp addressed_utp
      (list_channel {A = ConfigureCommand})
      none
      (λ wanted. ok (wanted ∷ []))
      (λ local. ok (local ∷ []))
      (err (external 98))
      (1 ∷ [])
      (ok [])
      (ok [])
      MdnsConfig.default
bind_whole-outcome_example =
    bind_whole-outcome scripted_dht 9 scripted_mdns addressed_tcp addressed_utp list_channel none
      (λ wanted. ok (wanted ∷ [])) (λ local. ok (local ∷ [])) (err (external 98)) (1 ∷ []) (ok [])
      (ok []) MdnsConfig.default
