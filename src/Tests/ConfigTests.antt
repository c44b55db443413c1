-- ===== src/Tests/ConfigTests.antt =====
-- Runs of the model of src/config.rs.
use hyperswarm_rs.Prelude.{ℕ, ◌≡◌, Bool, false, some, none, List, [], ◌∷◌}
use hyperswarm_rs.Config.{default}
use hyperswarm_rs.Config.Builders.{
  Step, sets_bootstrap_nodes, sets_ephemeral, sets_local_addr, fills_defaults, chain, dht_after,
  last_mdns, last_addr, chain-fields,
}
use hyperswarm_rs.Tests.Doubles.{peer, settings}

abbrev steps : List (Step (List ℕ × Bool) ℕ)
steps =
    fills_defaults
    ∷ sets_ephemeral false
    ∷ sets_local_addr (peer 4)
    ∷ sets_bootstrap_nodes (1 ∷ 2 ∷ [])
    ∷ fills_defaults
    ∷ []

chain-fields_example :
    chain settings steps default
    ≡ record { mdns = none; dht = some (1 ∷ 2 ∷ [], false); local_addr = some (peer 4) }
unfolding dht_after last_mdns last_addr
chain-fields_example = chain-fields settings steps default
