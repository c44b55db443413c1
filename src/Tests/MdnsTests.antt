-- ===== src/Tests/MdnsTests.antt =====
-- Runs of the models of src/discovery/mdns.rs and src/discovery/combined.rs.
use hyperswarm_rs.Prelude.{
  ℕ, ◌≡◌, ◌↔◌, refl, Option, none, some, List, [], ◌∷◌, new, other, ok, err, Poll, ready, Next,
  returns, length,
}
use hyperswarm_rs.Net.{SocketAddr}
use hyperswarm_rs.Channel.{list_channel-IsFifo}
use hyperswarm_rs.Discovery.{PeerInfo, mdns}
use hyperswarm_rs.Discovery.Calls.{Call, looks_up, announces, polls, run}
use hyperswarm_rs.Discovery.MdnsConfig
use hyperswarm_rs.Discovery.Mdns.{Command, MdnsDiscovery, located, bind, mdns_discovery}
use hyperswarm_rs.Discovery.Mdns.Locates.{answers, bind-answers, located_iff}
use hyperswarm_rs.Discovery.Combined.{CombinedDiscovery, combined_discovery, lookup}
use hyperswarm_rs.Discovery.Combined
use hyperswarm_rs.Discovery.Combined.Weave.{Weaves, run-Weaves}
use hyperswarm_rs.Tests.Doubles.{peer, topic_of, scripted_discovery, Answers, scripted_mdns}

-- A short topic, then a whole one.
abbrev heard : Answers
heard = (7 ∷ [], peer 1) ∷ (topic_of 7, peer 2) ∷ []

abbrev start : MdnsDiscovery Answers ℕ ⊥ (List Command)
start = record { announcer = 0; locator = heard; pending_commands = []; pending_future = none }

abbrev session : List Call
session = looks_up (topic_of 9) ∷ polls ∷ announces (topic_of 9) ∷ polls ∷ []

bind-answers_example :
    (s : MdnsDiscovery Answers ℕ ⊥ (List Command)) × (run
        (mdns_discovery scripted_mdns)
        session
        start
      ≡ returns (answers scripted_mdns 2 heard, s))
unfolding bind
bind-answers_example =
    bind-answers scripted_mdns list_channel-IsFifo (1 ∷ []) (ok heard) (ok []) MdnsConfig.default
      4000 session {s = start} refl

abbrev found : PeerInfo
found = record { peer_addr = peer 2; topic = some (topic_of 7); discovery_method = mdns }

located_iff_example : (located (ready (some (topic_of 7, peer 2))) ≡ ready (some (ok found))) ↔ (
    (bytes : List ℕ) × (addr : SocketAddr) × (◌≡◌ {A = Poll (Option (List ℕ × SocketAddr))}
      (ready (some (topic_of 7, peer 2)))
      (ready (some (bytes, addr))))
    × (length bytes ≡ 32)
    × (found ≡ record { peer_addr = addr; topic = some bytes; discovery_method = mdns }))
located_iff_example = located_iff (ready (some (topic_of 7, peer 2))) found

-- The first part answers the first poll, the second part the second.
abbrev both : CombinedDiscovery (List (Next PeerInfo)) (List (Next PeerInfo))
both = record {
  dht = ready (some (ok found)) ∷ [];
  mdns = ready (some (err (new other "Received invalid topic"))) ∷ [];
}

abbrev done : CombinedDiscovery (List (Next PeerInfo)) (List (Next PeerInfo))
done = record { dht = []; mdns = [] }

run-Weaves_example :
    Weaves scripted_discovery scripted_discovery
      (looks_up (topic_of 7) ∷ polls ∷ polls ∷ [])
      both
      (ready (some (ok found)) ∷ ready (some (err (new other "Received invalid topic"))) ∷ [])
      done
unfolding run lookup Combined.poll_next
run-Weaves_example =
    run-Weaves scripted_discovery scripted_discovery (looks_up (topic_of 7) ∷ polls ∷ polls ∷ [])
      both refl
