-- ===== src/System/Binds.antt =====
-- `Hyperswarm::bind` of src/swarm.rs over what the transports and the discoveries of src/ bind.
use hyperswarm_rs.Prelude.{
  ◌≡◌, ◌⊎◌, inl, inr, refl, false, Option, none, some, List, [], ◌∷◌, ℕ, IoError, IoResult, ok, err,
  Outcome, returns,
}
use hyperswarm_rs.Prelude.Io.{IoResult-cases}
use hyperswarm_rs.Net.{SocketAddr, port_of}
use hyperswarm_rs.Channel.{Channel}
use hyperswarm_rs.Discovery.MdnsConfig.{MdnsConfig, IdBytes}
use hyperswarm_rs.Discovery.Mdns.{Mdns, mdns_discovery}
use hyperswarm_rs.Discovery.Mdns
use hyperswarm_rs.Discovery.Dht.{HyperDht, dht_discovery}
use hyperswarm_rs.Discovery.Dht
use hyperswarm_rs.Discovery.Combined.{combined_discovery}
use hyperswarm_rs.Discovery.Combined
use hyperswarm_rs.Transport.Tcp.{Tcp, tcp_transport}
use hyperswarm_rs.Transport.Tcp as OverTcp
use hyperswarm_rs.Transport.Utp.{Utp, utp_transport}
use hyperswarm_rs.Transport.Utp as OverUtp
use hyperswarm_rs.Transport.Combined.{unwrap_socket_addr, combined_transport}
use hyperswarm_rs.Transport.Combined as CombinedTransport
use hyperswarm_rs.Swarm.{ConfigureCommand}
use hyperswarm_rs.Swarm
use hyperswarm_rs.System.Returns.{Whole}

module _ {D L A F QM SM T LT FT CT UT V XU LU CU UU Q : Type 0} (hyper : HyperDht D) (rounds : ℕ)
    (m : Mdns L A F QM SM) (tcp : Tcp T LT FT CT UT) (utp : Utp V XU LU CU UU)
    (channel : Channel Q ConfigureCommand) where
  module _ (addr : Option (IoResult (List SocketAddr))) (listen : SocketAddr → IoResult LT)
      (context : SocketAddr → IoResult XU) (table : IoResult D) (random : IdBytes)
      (created created' : IoResult SM) (config : MdnsConfig) where
    -- Given what the address resolves to, how a listener and a context are bound to an address, and the results
    -- of making the table and the two sockets. A socket address resolves to itself.
    abbrev pub bind_whole : Outcome (IoResult (Whole hyper rounds m tcp utp channel))
    bind_whole =
        Swarm.bind (combined_discovery (dht_discovery hyper rounds) (mdns_discovery m))
          (combined_transport (tcp_transport tcp) (utp_transport utp)) channel
          (CombinedTransport.bind (λ a. OverTcp.bind tcp (ok (a ∷ [])) listen) (λ t. t.addr)
            (λ a. OverUtp.bind utp (ok (a ∷ [])) context) addr)
          (λ t. t.local_addr)
          (λ port.
            returns (
              Combined.bind (Mdns.bind m random created created' config port)
                (Dht.bind table port)))

    -- What was bound: the listener to the address wanted, the context to that of the listener, whose port is
    -- announced.
    pub record Binds (s : Whole hyper rounds m tcp utp channel) : Type 0 where
      pub wanted : SocketAddr
      pub listener : LT
      pub resolves : unwrap_socket_addr addr ≡ ok wanted
      pub listens : listen wanted ≡ ok listener
      pub local : tcp.local_addr listener ≡ ok s.transport.local_addr
      pub contexts : context s.transport.local_addr ≡ ok s.transport.utp.context
      pub tabled : table ≡ ok s.discovery.dht.state
      pub announced : s.discovery.dht.announce_port ≡ port_of s.transport.local_addr
      pub advertises :
          (socket : SM) × (created' ≡ ok socket)
          × (s.discovery.mdns.announcer
              ≡ m.listen_announcer socket
                  (port_of s.transport.local_addr)
                  (m.hex_encode (elim config.id [ none ↦ random | some id ↦ id ])))
      pub fresh : (s.topics ≡ []) × (s.commands ≡ channel.unbounded) × (s.transport.connected ≡ [])

    -- The first thing that goes wrong.
    pub data Fails (e : IoError) : Type 0 where
      unresolved : unwrap_socket_addr addr ≡ err e → Fails e
      unheard :
          {wanted : SocketAddr}
          → unwrap_socket_addr addr ≡ ok wanted
          → listen wanted ≡ err e
          → Fails e
      unnamed :
          {wanted : SocketAddr} {listener : LT}
          → unwrap_socket_addr addr ≡ ok wanted
          → listen wanted ≡ ok listener
          → tcp.local_addr listener ≡ err e
          → Fails e
      no_context :
          {wanted local : SocketAddr} {listener : LT}
          → unwrap_socket_addr addr ≡ ok wanted
          → listen wanted ≡ ok listener
          → tcp.local_addr listener ≡ ok local
          → context local ≡ err e
          → Fails e
      no_discovery :
          {wanted local : SocketAddr} {listener : LT} {x : XU}
          → unwrap_socket_addr addr ≡ ok wanted
          → listen wanted ≡ ok listener
          → tcp.local_addr listener ≡ ok local
          → context local ≡ ok x
          → (created ≡ err e)
            ⊎ (((socket : SM) × (created ≡ ok socket) × (created' ≡ err e))
                ⊎ ((socket socket' : SM) × (created ≡ ok socket)
                    × (created' ≡ ok socket')
                    × (table ≡ err e)))
          → Fails e

    abbrev pub BindsOrFails : Type 0
    BindsOrFails =
        ((s : Whole hyper rounds m tcp utp channel) × (bind_whole ≡ returns (ok s)) × Binds s)
        ⊎ ((e : IoError) × (bind_whole ≡ returns (err e)) × Fails e)

    bound : SocketAddr → LT → XU → SM → SM → D → Whole hyper rounds m tcp utp channel
    bound local listener x socket socket' d =
        let self_id : IdBytes = elim config.id [ none ↦ random | some id ↦ id ] in
        record {
          topics = [];
          discovery = record {
            dht = record {
              state = d;
              is_bootstrapped = false;
              announce_port = port_of local;
              pending_commands = [];
              pending_events = [];
            };
            mdns = record {
              locator = m.listen_locator socket config.lookup_interval self_id;
              announcer = m.listen_announcer socket' (port_of local) (m.hex_encode self_id);
              pending_commands = m.channel.unbounded;
              pending_future = none;
            };
          };
          transport = record {
            tcp = record {
              addr = local;
              incoming = record { local_addr = local; accept = tcp.accept listener };
              pending_connects = tcp.connects.new;
            };
            utp = record {
              context = x;
              pending_connects = utp.connects.new;
              incoming = utp.listener x;
            };
            local_addr = local;
            connected = [];
          };
          commands = channel.unbounded;
        }

    discovers :
        {wanted local : SocketAddr} {listener : LT} {x : XU}
        → unwrap_socket_addr addr ≡ ok wanted
        → listen wanted ≡ ok listener
        → tcp.local_addr listener ≡ ok local
        → context local ≡ ok x
        → BindsOrFails
    unfolding bound Swarm.bind CombinedTransport.bind OverTcp.bind OverTcp.incoming_new OverUtp.bind
        Combined.bind Mdns.bind Dht.bind
    discovers {local = local} {listener = listener} {x = x} r l n c =
        elim (IoResult-cases created) [
          | inr (e, f) ↦ inr (e, rw (r, l, n, c, f) refl, no_discovery r l n c (inl f))
          | inl (socket, f) ↦ elim (IoResult-cases created') [
            | inr (e, g) ↦
                inr (e, rw (r, l, n, c, f, g) refl, no_discovery r l n c (inr (inl (socket, f, g))))
            | inl (socket', g) ↦ elim (IoResult-cases table) [
              | inr (e, t) ↦ inr (
                e,
                rw (r, l, n, c, f, g, t) refl,
                no_discovery r l n c (inr (inr (socket, socket', f, g, t))),
              )
              | inl (d, t) ↦ inl (
                bound local listener x socket socket' d,
                rw (r, l, n, c, f, g, t) refl,
                record {
                  wanted = _;
                  listener = _;
                  resolves = r;
                  listens = l;
                  local = n;
                  contexts = c;
                  tabled = t;
                  announced = refl;
                  advertises = (socket', g, refl);
                  fresh = (refl, refl, refl);
                },
              )
            ]
          ]
        ]

    -- For any results of the other crates' parts: binding a swarm over the TCP and uTP transports
    -- and both discoveries returns, without a panic, either a swarm or the first error in order:
    -- that the address does not resolve, that no listener is bound to it, that the listener has no
    -- address, that no context is bound to that address, that the first or the second socket is not
    -- made, or that the table is not. A swarm that it returns has its listener bound to the address
    -- wanted, the uTP context to the listener's own address, the table that was made, that address's
    -- port announced by both discoveries, and no topics, queued commands or connected peers.
    pub bind_whole-outcome : BindsOrFails
    unfolding Swarm.bind CombinedTransport.bind OverTcp.bind OverTcp.incoming_new OverUtp.bind
        Combined.bind Mdns.bind Dht.bind
    bind_whole-outcome = elim (IoResult-cases (unwrap_socket_addr addr)) [
      | inr (e, r) ↦ inr (e, rw r refl, unresolved r)
      | inl (wanted, r) ↦ elim (IoResult-cases (listen wanted)) [
        | inr (e, l) ↦ inr (e, rw (r, l) refl, unheard r l)
        | inl (listener, l) ↦ elim (IoResult-cases (tcp.local_addr listener)) [
          | inr (e, n) ↦ inr (e, rw (r, l, n) refl, unnamed r l n)
          | inl (local, n) ↦ elim (IoResult-cases (context local)) [
            | inr (e, c) ↦ inr (e, rw (r, l, n, c) refl, no_context r l n c)
            | inl (x, c) ↦ discovers r l n c
          ]
        ]
      ]
    ]
