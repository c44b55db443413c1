-- ===== src/Discovery/MdnsConfig.antt =====
-- src/discovery/mdns.rs: `MdnsConfig` and its builder.
use hyperswarm_rs.Prelude.{ℕ, ◌*◌, Option, none, some, List}

-- hyperswarm_dht::IdBytes, as its bytes.
abbrev pub IdBytes : Type 0
IdBytes = List ℕ

-- std::time::Duration, in nanoseconds.
abbrev pub Duration : Type 0
Duration = ℕ

abbrev pub from_secs : ℕ → Duration
from_secs n = n * 1_000_000_000

pub record MdnsConfig : Type 0 where
  pub id : Option IdBytes
  pub lookup_interval : Duration
  pub announce_port : Option ℕ

-- `#[derive(Default)]`
abbrev pub default : MdnsConfig
default = record { id = none; lookup_interval = 0; announce_port = none }

abbrev pub new : MdnsConfig
new = record { lookup_interval = from_secs 60; id = none; announce_port = none }

unfoldable pub set_id : MdnsConfig → IdBytes → MdnsConfig
set_id c id = record c { id = some id }

unfoldable pub set_lookup_interval : MdnsConfig → Duration → MdnsConfig
set_lookup_interval c interval = record c { lookup_interval = interval }

unfoldable pub set_announce_port : MdnsConfig → ℕ → MdnsConfig
set_announce_port c port = record c { announce_port = some port }
