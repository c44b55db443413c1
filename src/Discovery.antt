-- ===== src/Discovery.antt =====
-- src/discovery/mod.rs: topics, the peers that discovery finds, and the trait `Discovery`.
pub mod Calls
pub mod Recording
pub mod Drives
pub mod Total
pub mod Dht
pub mod MdnsConfig
pub mod Mdns
pub mod Combined
use hyperswarm_rs.Prelude.{
  ℕ, ◌≡◌, refl, Option, none, some, List, String, Next, Outcome, if◌then◌else◌, ◌==◌, length,
}
use hyperswarm_rs.Net.{SocketAddr}

-- `[u8; 32]`, as its bytes. `topic_from` is the conversion that checks the length.
abbrev pub Topic : Type 0
Topic = List ℕ

-- `Vec<u8>::try_into::<[u8; 32]>`
abbrev pub topic_from : List ℕ → Option Topic
topic_from bytes = if length bytes == 32 then some bytes else none

pub data DiscoveryMethod : Type 0 where
  mdns dht : DiscoveryMethod

pub record PeerInfo : Type 0 where
  pub peer_addr : SocketAddr
  pub topic : Option Topic
  pub discovery_method : DiscoveryMethod

unfoldable pub peer_info : SocketAddr → Option Topic → DiscoveryMethod → PeerInfo
peer_info addr topic discovery_method = record {
  peer_addr = addr;
  topic = topic;
  discovery_method = discovery_method;
}

unfoldable pub addr : PeerInfo → SocketAddr
addr p = p.peer_addr

-- The trait: what an implementation over the state `S` provides.
pub record Discovery (S : Type 0) : Type 0 where
  pub lookup : Topic → S → Outcome S
  pub announce : Topic → S → Outcome S
  pub poll_next : S → Outcome (Next PeerInfo × S)
