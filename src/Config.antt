-- ===== src/Config.antt =====
-- src/config.rs: the configuration of a swarm and of a topic.
-- `DhtConfig` is hyperswarm_dht's: the record `DhtSettings` is what the source calls of it.
pub mod Builders
use hyperswarm_rs.Prelude.{ℕ, Bool, true, false, Option, none, some, List, IoResult}
use hyperswarm_rs.Net.{SocketAddr}
use hyperswarm_rs.Discovery.MdnsConfig.{MdnsConfig}
use hyperswarm_rs.Discovery.MdnsConfig

-- The addresses that `set_bootstrap_nodes` is given are of a type `A`.
pub record DhtSettings (C A : Type 0) : Type 0 where
  pub default : C
  pub set_bootstrap_nodes : C → List A → C
  pub empty_bootstrap_nodes : C → C
  pub set_ephemeral : C → Bool → C

pub record Config (C : Type 0) : Type 0 where
  pub mdns : Option MdnsConfig
  pub dht : Option C
  pub local_addr : Option SocketAddr

-- Option::unwrap_or
abbrev pub unwrap_or {ℓ} : {A : Type ℓ} → Option A → A → A
unwrap_or none d = d
unwrap_or (some a) d = a

-- Option::or_else, with an alternative that takes no argument.
abbrev pub or_else {ℓ} : {A : Type ℓ} → Option A → Option A → Option A
or_else none other = other
or_else (some a) other = some a

-- `#[derive(Default)]`, and `new`.
abbrev pub default : {C : Type 0} → Config C
default = record { mdns = none; dht = none; local_addr = none }

unfoldable pub set_dht : {C : Type 0} → Config C → C → Config C
set_dht c config = record c { dht = some config }

unfoldable pub set_mdns : {C : Type 0} → Config C → MdnsConfig → Config C
set_mdns c config = record c { mdns = some config }

unfoldable pub set_local_addr : {C : Type 0} → Config C → SocketAddr → Config C
set_local_addr c address = record c { local_addr = some address }

-- `Default::default` is passed where an `Option` is wanted, so it is that of `Option`: `None`.
unfoldable pub with_defaults : {C : Type 0} → Config C → Config C
with_defaults c = record c { mdns = or_else c.mdns none; dht = or_else c.dht none }

module _ {C A : Type 0} (dht : DhtSettings C A) where
  unfoldable pub all : Config C
  all = record { mdns = some MdnsConfig.default; dht = some dht.default; local_addr = none }

  unfoldable pub set_bootstrap_nodes : Config C → List A → Config C
  set_bootstrap_nodes c addresses = record c {
    dht = some (dht.set_bootstrap_nodes (unwrap_or c.dht dht.default) addresses);
  }

  unfoldable pub set_ephemeral : Config C → Bool → Config C
  set_ephemeral c ephemeral = record c {
    dht = some (dht.set_ephemeral (unwrap_or c.dht dht.default) ephemeral);
  }

pub record TopicConfig : Type 0 where
  pub announce : Bool
  pub lookup : Bool

-- `#[derive(Default)]`
abbrev pub topic_default : TopicConfig
topic_default = record { announce = false; lookup = false }

abbrev pub both : TopicConfig
both = record { announce = true; lookup = true }

abbrev pub announce_and_lookup : TopicConfig
announce_and_lookup = both
