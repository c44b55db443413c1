-- ===== src/System/Returns.antt =====
-- src/swarm.rs over the transports and the discoveries of src/: when a poll of the whole returns.
use hyperswarm_rs.Prelude.{ℕ, ◌+◌, ◌*◌, ◌<◌, ◌≡◌, ok, Next, Outcome, returns, length}
use hyperswarm_rs.Net.{SocketAddr}
use hyperswarm_rs.Channel.{Channel, IsFifo}
use hyperswarm_rs.Discovery.Total.{dht-IsTotal, mdns-Always, combined-IsTotal}
use hyperswarm_rs.Discovery.Mdns.{Mdns, MdnsDiscovery, mdns_discovery}
use hyperswarm_rs.Discovery.Dht.{HyperDht, DhtDiscovery, dht_discovery}
use hyperswarm_rs.Discovery.Dht.Termination.{IsDraining, work}
use hyperswarm_rs.Discovery.Combined.{CombinedDiscovery, combined_discovery}
use hyperswarm_rs.Transport.{Connection}
use hyperswarm_rs.Transport.Total.{tcp-PollsReturn, utp-PollsReturn, combined-PollsReturn}
use hyperswarm_rs.Transport.Tcp.{Tcp, TcpTransport, tcp_transport}
use hyperswarm_rs.Transport.Utp.{Utp, UtpTransport, UtpStream, utp_transport}
use hyperswarm_rs.Transport.Combined.{CombinedTransport, CombinedStream, combined_transport}
use hyperswarm_rs.Swarm.{ConfigureCommand, Hyperswarm, poll_next}
use hyperswarm_rs.Swarm.Total

module _ {D L A F QM SM T LT FT CT UT V XU LU CU UU Q : Type 0} (hyper : HyperDht D) (rounds : ℕ)
    (m : Mdns L A F QM SM) (tcp : Tcp T LT FT CT UT) (utp : Utp V XU LU CU UU)
    (channel : Channel Q ConfigureCommand) where
  abbrev pub Whole : Type 0
  Whole =
      Hyperswarm (CombinedDiscovery (DhtDiscovery D) (MdnsDiscovery L A F QM))
        (CombinedTransport (TcpTransport FT UT) (UtpTransport XU LU UU)) Q

  -- The swarm's poll, over what `Hyperswarm::bind` binds.
  abbrev pub poll_whole :
      ℕ → Whole → Outcome (Next (Connection (CombinedStream T (UtpStream V))) × Whole)
  poll_whole =
      poll_next (combined_discovery (dht_discovery hyper rounds) (mdns_discovery m))
        (combined_transport (tcp_transport tcp) (utp_transport utp)) channel

  -- For a swarm in any state over the combined discovery and the combined transport: where the two
  -- queues of commands are unbounded and open, each TCP stream has the address of its peer, and
  -- polling the table uses up the events at hand and never ends, the poll of the swarm returns, so
  -- that neither of its loops runs without end and nothing panics, when it has more rounds than the
  -- commands in the swarm's channel and the table's loop more than the events at hand and those that
  -- the commands, the queued and the new, may bring.
  pub poll_whole-returns :
      (draining : IsDraining hyper)
      → IsFifo m.channel
      → ((stream : T) → (addr : SocketAddr) × (tcp.peer_addr stream ≡ ok addr))
      → (fifo : IsFifo channel) (fuel : ℕ) (s : Whole) → length (fifo.contents s.commands) < fuel
      → work draining s.discovery.dht + 2 * draining.burst * length (fifo.contents s.commands)
        < rounds
      → (r : Next (Connection (CombinedStream T (UtpStream V))) × Whole) × (poll_whole fuel s
          ≡ returns r)
  poll_whole-returns draining queued connected fifo fuel s =
      Total.poll_next-returns
        (combined-IsTotal (dht-IsTotal draining rounds) (mdns-Always m queued))
        (combined_transport (tcp_transport tcp) (utp_transport utp)) channel
        (combined-PollsReturn (tcp_transport tcp) (utp_transport utp)
          (tcp-PollsReturn tcp connected) (utp-PollsReturn utp))
        fifo fuel s
