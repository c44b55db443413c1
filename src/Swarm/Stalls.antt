-- ===== src/Swarm/Stalls.antt =====
-- src/swarm.rs: what is left behind when `poll_next` says `Poll::Pending`.
use hyperswarm_rs.Prelude.{
  ℕ, suc, ◌≡◌, refl, ◌⊎◌, some, List, ◌∷◌, IoError, ok, err, pending, ready, Next, returns, arith,
}
use hyperswarm_rs.Channel.{Channel}
use hyperswarm_rs.Discovery.{PeerInfo, addr, Discovery}
use hyperswarm_rs.Discovery.Combined.{CombinedDiscovery, combined_discovery}
use hyperswarm_rs.Discovery.Combined
use hyperswarm_rs.Discovery.Dht.{HyperDht, DhtDiscovery, dht_discovery}
use hyperswarm_rs.Discovery.Dht
use hyperswarm_rs.Transport.{Connection, Transport}
use hyperswarm_rs.Swarm.{ConfigureCommand, Hyperswarm, poll_commands, poll_next}

module _ {D M S T Q : Type 0} (hyper : HyperDht D) (rounds : ℕ) (mdns : Discovery M)
    (transport : Transport S T) (channel : Channel Q ConfigureCommand) where
  -- The swarm over the table and multicast DNS.
  abbrev Swarm : Type 0
  Swarm = Hyperswarm (CombinedDiscovery (DhtDiscovery D) M) S Q

  dht_hands_out :
      (d : DhtDiscovery D) (first : PeerInfo) (rest : List PeerInfo)
      → d.pending_events ≡ first ∷ rest
      → Dht.poll_next hyper (suc rounds) d
        ≡ returns (ready (some (ok first)), record d { pending_events = rest })
  unfolding Dht.poll_next
  dht_hands_out d first rest e = ground arith

  combined_hands_out :
      (c : CombinedDiscovery (DhtDiscovery D) M) (first : PeerInfo) (rest : List PeerInfo)
      → c.dht.pending_events ≡ first ∷ rest
      → Combined.poll_next (dht_discovery hyper (suc rounds)) mdns c
        ≡ returns
            (ready (some (ok first)), record c { dht = record c.dht { pending_events = rest } })
  unfolding Combined.poll_next
  combined_hands_out c first rest e = ground (arith, dht_hands_out c.dht first rest e)

  -- For the swarm over the table and multicast DNS: where the loop over the commands ends and leaves
  -- two or more peers queued in the table's discovery, and the transport, told of the first of them,
  -- is polled and gives `Pending` or an error, the swarm's poll says `Pending` with all of those
  -- peers but the first still queued.
  pub poll_next-stalls :
      (fuel : ℕ) (s t : Swarm) (first second : PeerInfo) (rest : List PeerInfo)
      (res : Next (Connection T)) {u : S}
      → poll_commands
          (combined_discovery (dht_discovery hyper (suc rounds)) mdns)
          transport
          channel
          fuel
          s
        ≡ returns t
      → t.discovery.dht.pending_events ≡ first ∷ second ∷ rest
      → transport.poll_next (transport.connect (addr first) t.transport) ≡ returns (res, u)
      → (res ≡ pending) ⊎ ((e : IoError) × (res ≡ ready (some (err e))))
      → (s' : Swarm) × (poll_next
            (combined_discovery (dht_discovery hyper (suc rounds)) mdns)
            transport
            channel
            fuel
            s
          ≡ returns (pending, s'))
        × (s'.discovery.dht.pending_events ≡ second ∷ rest)
  unfolding poll_next
  poll_next-stalls fuel s t first second rest res {u} p e q r = (
    record t {
      discovery = record t.discovery {
        dht = record t.discovery.dht { pending_events = second ∷ rest };
      };
      transport = u;
    },
    ground (arith, combined_hands_out t.discovery first (second ∷ rest) e),
    refl,
  )
