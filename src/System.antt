-- ===== src/System.antt =====
-- The parts together: the swarm of src/swarm.rs over the combined discovery of src/discovery, the table's
-- and that of multicast DNS, and over any transport, each with a record.
pub mod Sources
pub mod Returns
pub mod Binds
use hyperswarm_rs.Prelude.{ℕ, List, [], IoResult, ok, err, Outcome, returns}
use hyperswarm_rs.Prelude.Io
use hyperswarm_rs.Net.{SocketAddr}
use hyperswarm_rs.Channel.{Channel}
use hyperswarm_rs.Discovery.{Discovery}
use hyperswarm_rs.Discovery.Recording
use hyperswarm_rs.Discovery.MdnsConfig.{MdnsConfig, IdBytes}
use hyperswarm_rs.Discovery.Mdns.{Mdns, MdnsDiscovery, mdns_discovery}
use hyperswarm_rs.Discovery.Mdns
use hyperswarm_rs.Discovery.Dht.{HyperDht, DhtDiscovery, dht_discovery}
use hyperswarm_rs.Discovery.Dht
use hyperswarm_rs.Discovery.Dht.Logged.{Logged, logged}
use hyperswarm_rs.Discovery.Combined.{CombinedDiscovery, combined_discovery}
use hyperswarm_rs.Discovery.Combined
use hyperswarm_rs.Transport.{Transport}
use hyperswarm_rs.Transport.Recording as TransportRecording
use hyperswarm_rs.Swarm.{ConfigureCommand, Hyperswarm}
use hyperswarm_rs.Swarm.Books.{Watched}
use hyperswarm_rs.Swarm

-- A record that is empty yet, of what was bound.
abbrev pub recorded : {D : Type 0} → IoResult D → IoResult (Recording.Recorded D)
recorded bound = Io.◌>>=◌ bound λ inner. ok (record { inner = inner; log = []; results = [] })

module _ {D L A F QM SM : Type 0} (hyper : HyperDht D) (rounds : ℕ) (m : Mdns L A F QM SM) where
  abbrev pub Found : Type 0
  Found = CombinedDiscovery (DhtDiscovery (Logged D)) (MdnsDiscovery L A F QM)

  -- The two discoveries, the table's with a record of what it is asked and gives.
  abbrev pub discoveries : Discovery Found
  discoveries = combined_discovery (dht_discovery (logged hyper) rounds) (mdns_discovery m)

  -- `CombinedDiscovery::bind`, given the table, the sockets and the random id.
  abbrev pub bind_discoveries :
      D → IdBytes → IoResult SM → IoResult SM → MdnsConfig → ℕ → IoResult Found
  bind_discoveries table random created created' config port =
      Combined.bind (Mdns.bind m random created created' config port)
        (Dht.bind (ok (record { inner = table; issued = []; seen = [] })) port)

  module _ {S T Q : Type 0} (transport : Transport S T) (channel : Channel Q ConfigureCommand) where
    -- `Hyperswarm::bind`, given a transport that is bound and its address.
    abbrev pub bind_swarm :
        S
        → (TransportRecording.Recorded S T → SocketAddr)
        → (ℕ → IoResult Found)
        → Outcome (IoResult (Watched Found S T Q))
    bind_swarm inner local_addr bind_found =
        Swarm.bind (Recording.recording discoveries) (TransportRecording.recording transport)
          channel (returns (ok (record { inner = inner; dialled = []; results = [] }))) local_addr
          (λ port. returns (recorded (bind_found port)))
