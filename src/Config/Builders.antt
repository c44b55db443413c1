-- ===== src/Config/Builders.antt =====
-- src/config.rs: chains of the builder's methods.
use hyperswarm_rs.Prelude.{◌≡◌, refl, Bool, Option, none, some, List, [], ◌∷◌}
use hyperswarm_rs.Net.{SocketAddr}
use hyperswarm_rs.Discovery.MdnsConfig.{MdnsConfig}
use hyperswarm_rs.Config.{
  DhtSettings, Config, unwrap_or, or_else, set_dht, set_mdns, set_local_addr, with_defaults,
  set_bootstrap_nodes, set_ephemeral,
}

-- A call of a method that takes a configuration and gives one.
pub data Step (C A : Type 0) : Type 0 where
  sets_dht : C → Step C A
  sets_mdns : MdnsConfig → Step C A
  sets_local_addr : SocketAddr → Step C A
  sets_bootstrap_nodes : List A → Step C A
  sets_ephemeral : Bool → Step C A
  fills_defaults : Step C A

module _ {C A : Type 0} (dht : DhtSettings C A) where
  -- The method that is called.
  abbrev pub apply : Step C A → Config C → Config C
  apply (sets_dht config) c = set_dht c config
  apply (sets_mdns config) c = set_mdns c config
  apply (sets_local_addr address) c = set_local_addr c address
  apply (sets_bootstrap_nodes addresses) c = set_bootstrap_nodes dht c addresses
  apply (sets_ephemeral ephemeral) c = set_ephemeral dht c ephemeral
  apply fills_defaults c = with_defaults c

  unfoldable pub chain : List (Step C A) → Config C → Config C
  chain [] c = c
  chain (step ∷ steps) c = chain steps (apply step c)

  -- What the steps about the table make of its configuration.
  unfoldable pub dht_after : List (Step C A) → Option C → Option C
  dht_after [] current = current
  dht_after (sets_dht config ∷ steps) current = dht_after steps (some config)
  dht_after (sets_bootstrap_nodes addresses ∷ steps) current =
      dht_after steps (some (dht.set_bootstrap_nodes (unwrap_or current dht.default) addresses))
  dht_after (sets_ephemeral ephemeral ∷ steps) current =
      dht_after steps (some (dht.set_ephemeral (unwrap_or current dht.default) ephemeral))
  dht_after (sets_mdns config ∷ steps) current = dht_after steps current
  dht_after (sets_local_addr address ∷ steps) current = dht_after steps current
  dht_after (fills_defaults ∷ steps) current = dht_after steps current

-- The last configuration of multicast DNS that the steps set, or the one there was.
unfoldable pub last_mdns : {C A : Type 0} → List (Step C A) → Option MdnsConfig → Option MdnsConfig
last_mdns [] current = current
last_mdns (sets_mdns config ∷ steps) current = last_mdns steps (some config)
last_mdns (sets_dht config ∷ steps) current = last_mdns steps current
last_mdns (sets_bootstrap_nodes addresses ∷ steps) current = last_mdns steps current
last_mdns (sets_ephemeral ephemeral ∷ steps) current = last_mdns steps current
last_mdns (sets_local_addr address ∷ steps) current = last_mdns steps current
last_mdns (fills_defaults ∷ steps) current = last_mdns steps current

-- The last address that the steps set, or the one there was.
unfoldable pub last_addr : {C A : Type 0} → List (Step C A) → Option SocketAddr → Option SocketAddr
last_addr [] current = current
last_addr (sets_local_addr address ∷ steps) current = last_addr steps (some address)
last_addr (sets_dht config ∷ steps) current = last_addr steps current
last_addr (sets_bootstrap_nodes addresses ∷ steps) current = last_addr steps current
last_addr (sets_ephemeral ephemeral ∷ steps) current = last_addr steps current
last_addr (sets_mdns config ∷ steps) current = last_addr steps current
last_addr (fills_defaults ∷ steps) current = last_addr steps current

or_else-none : {A : Type 0} (o : Option A) → or_else o none ≡ o
or_else-none none = refl
or_else-none (some a) = refl

with_defaults_lem : {C : Type 0} (c : Config C) → with_defaults c ≡ c
unfolding with_defaults
with_defaults_lem c = rw (or_else-none c.mdns, or_else-none c.dht)

-- After any chain of the methods of a configuration: the table's configuration is what the methods
-- about it made of it, each starting from the default one where there was none yet; that of
-- multicast DNS and the address are the last ones set; and no `with_defaults` in the chain has any
-- effect.
pub chain-fields :
    {C A : Type 0} (dht : DhtSettings C A) (steps : List (Step C A)) (c : Config C)
    → chain dht steps c ≡ record {
      mdns = last_mdns steps c.mdns;
      dht = dht_after dht steps c.dht;
      local_addr = last_addr steps c.local_addr;
    }
unfolding chain last_mdns dht_after last_addr set_dht set_mdns set_local_addr set_bootstrap_nodes
    set_ephemeral
chain-fields dht [] c = refl
chain-fields dht (sets_dht config ∷ steps) c = chain-fields dht steps (set_dht c config)
chain-fields dht (sets_mdns config ∷ steps) c = chain-fields dht steps (set_mdns c config)
chain-fields dht (sets_local_addr address ∷ steps) c =
    chain-fields dht steps (set_local_addr c address)
chain-fields dht (sets_bootstrap_nodes addresses ∷ steps) c =
    chain-fields dht steps (set_bootstrap_nodes dht c addresses)
chain-fields dht (sets_ephemeral ephemeral ∷ steps) c =
    chain-fields dht steps (set_ephemeral dht c ephemeral)
chain-fields dht (fills_defaults ∷ steps) c = rw (with_defaults_lem c, chain-fields dht steps c)
