-- ===== src/Tests/DhtTests.antt =====
-- Runs of the model of src/discovery/dht.rs.
use hyperswarm_rs.Prelude.{
  ℕ, ◌≡◌, refl, true, false, some, List, [], ◌∷◌, ok, pending, ready, Next, returns, arith,
}
use hyperswarm_rs.Discovery.{PeerInfo, peer_info, dht}
use hyperswarm_rs.Discovery.Calls.{Call, looks_up, polls, emitted_all, run}
use hyperswarm_rs.Discovery.Dht.{
  HyperDhtEvent, bootstrapped, lookup_result, lookup, DhtDiscovery, query_opts, bind, poll_next,
  dht_discovery, push_lookup,
}
use hyperswarm_rs.Discovery.Dht.Logged.{Logged, logged, requested}
use hyperswarm_rs.Discovery.Dht.Accounts.{Accounted, bind-Accounted}
use hyperswarm_rs.Discovery.Dht.Polls.{IsSettled, poll_next-IsSettled}
use hyperswarm_rs.Discovery.Dht.Termination.{poll_next-returns}
use hyperswarm_rs.Tests.Doubles.{peer, topic_of, scripted_dht, scripted_dht-IsDraining}

abbrev session : List Call
session = looks_up (topic_of 7) ∷ polls ∷ polls ∷ []

abbrev fresh : DhtDiscovery (Logged (List HyperDhtEvent))
fresh = record {
  state = record { inner = bootstrapped ∷ []; issued = []; seen = [] };
  is_bootstrapped = false;
  announce_port = 4000;
  pending_commands = [];
  pending_events = [];
}

abbrev plain : DhtDiscovery (List HyperDhtEvent)
plain = record {
  state = bootstrapped ∷ [];
  is_bootstrapped = false;
  announce_port = 4000;
  pending_commands = [];
  pending_events = [];
}

-- Both peers of the one lookup were handed out.
abbrev found_one : ℕ → Next PeerInfo
found_one n =
    ready
      (some (ok (record { peer_addr = peer n; topic = some (topic_of 7); discovery_method = dht })))

abbrev settled : DhtDiscovery (Logged (List HyperDhtEvent))
settled = record {
  state = record {
    inner = [];
    issued = lookup (query_opts 4000 (topic_of 7)) ∷ [];
    seen =
        bootstrapped
        ∷ lookup_result (record { topic = topic_of 7; remotes = peer 1 ∷ peer 2 ∷ [] })
        ∷ [];
  };
  is_bootstrapped = true;
  announce_port = 4000;
  pending_commands = [];
  pending_events = [];
}

session_runs :
    run (dht_discovery (logged scripted_dht) 4) session fresh
    ≡ returns (found_one 1 ∷ found_one 2 ∷ [], settled)
unfolding run push_lookup poll_next peer_info
session_runs = refl

bind-Accounted_example :
    Accounted 4000 (requested 4000 session) (emitted_all (found_one 1 ∷ found_one 2 ∷ [])) settled
unfolding bind
bind-Accounted_example =
    bind-Accounted scripted_dht 4 4000 (bootstrapped ∷ []) session {s = fresh} refl session_runs

poll_next-IsSettled_example : IsSettled pending settled
unfolding poll_next
poll_next-IsSettled_example = poll_next-IsSettled (logged scripted_dht) 1 settled refl

poll_next-returns_example :
    (r : Next PeerInfo × DhtDiscovery (List HyperDhtEvent)) × (poll_next scripted_dht 3
        (push_lookup (topic_of 7) plain)
      ≡ returns r)
unfolding push_lookup
poll_next-returns_example =
    poll_next-returns scripted_dht-IsDraining 3 (push_lookup (topic_of 7) plain) (omega arith)
