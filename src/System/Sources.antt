-- ===== src/System/Sources.antt =====
-- src/swarm.rs over src/discovery: where the addresses come from that a swarm connects to, and what its
-- table is asked.
use hyperswarm_rs.Prelude.{
  ℕ, ◌≡◌, refl, sym, ap, ◌∙◌, List, [], ◌∷◌, ◌++◌, map, IoResult, ok, err, Next, Outcome, returns,
  arith, length,
}
use hyperswarm_rs.Prelude.Outcomes.{and_then, returns-injective}
use hyperswarm_rs.Net.{SocketAddr, port_of}
use hyperswarm_rs.Channel.{Channel, IsFifo}
use hyperswarm_rs.Discovery.{PeerInfo, addr}
use hyperswarm_rs.Discovery.Calls.{Call, looks_up, announces, polls, emitted_all, count_polls, run}
use hyperswarm_rs.Discovery.Drives.{asked, run-recorded, length-run}
use hyperswarm_rs.Discovery.Recording
use hyperswarm_rs.Discovery.MdnsConfig.{MdnsConfig, IdBytes}
use hyperswarm_rs.Discovery.Mdns.{Mdns, mdns_discovery}
use hyperswarm_rs.Discovery.Mdns.Locates.{answers, run-answers, bind_idle}
use hyperswarm_rs.Discovery.Dht.{HyperDht, dht_discovery}
use hyperswarm_rs.Discovery.Dht.Logged.{logged, found, requested}
use hyperswarm_rs.Discovery.Dht.Accounts.{bind-Accounted}
use hyperswarm_rs.Discovery.Combined.{CombinedDiscovery}
use hyperswarm_rs.Discovery.Combined
use hyperswarm_rs.Discovery.Combined.Weave.{merge, left_over, run-Weaves}
use hyperswarm_rs.Transport.{Connection, Transport}
use hyperswarm_rs.Transport.Recording as TransportRecording
use hyperswarm_rs.Swarm.{ConfigureCommand}
use hyperswarm_rs.Swarm
use hyperswarm_rs.Swarm.Calls as SwarmCalls
use hyperswarm_rs.Swarm.Books.{Watched}
use hyperswarm_rs.Swarm.Balance.{run-Balanced}
use hyperswarm_rs.Swarm.Drives.{run-Leads}
use hyperswarm_rs.System.{recorded, Found, discoveries, bind_discoveries, bind_swarm}

requested-asked :
    (port : ℕ) (calls : List Call) → requested port (asked calls) ≡ requested port calls
requested-asked port [] = refl
requested-asked port (looks_up topic ∷ calls) = rw (requested-asked port calls)
requested-asked port (announces topic ∷ calls) = rw (requested-asked port calls)
requested-asked port (polls ∷ calls) = requested-asked port calls

-- What was bound, by its parts.
recorded_parts :
    {H M : Type 0} (bound_mdns : IoResult M) (bound_dht : IoResult H)
    (r : Recording.Recorded (CombinedDiscovery H M))
    → recorded (Combined.bind bound_mdns bound_dht) ≡ ok r
    → (bound_mdns ≡ ok r.inner.mdns)
      × (bound_dht ≡ ok r.inner.dht)
      × (r.log ≡ [])
      × (r.results ≡ [])
unfolding Combined.bind
recorded_parts (err e) bound_dht r h = absurd cc
recorded_parts (ok mdns) (err e) r h = absurd cc
recorded_parts (ok mdns) (ok dht) r h = ground arith

module _ {D L A F QM SM S T Q : Type 0} (hyper : HyperDht D) (rounds : ℕ) (m : Mdns L A F QM SM)
    (transport : Transport S T) (channel : Channel Q ConfigureCommand) where
  -- How the swarm's dialling comes of what its two discoveries, in the state `start`, have found in the polls
  -- that gave `out`, and what its table was asked, with the announced port.
  pub record Sourced (port : ℕ) (start : Found hyper rounds m) (out : List (Next (Connection T)))
      (s : Watched (Found hyper rounds m) S T Q) : Type 0 where
    pub asks : List Call
    pub from_table : List (Next PeerInfo)
    pub from_locator : List (Next PeerInfo)
    pub logs : s.discovery.log ≡ asked asks
    pub polls : count_polls asks ≡ length out
    pub runs_table :
        run (dht_discovery (logged hyper) rounds) asks start.dht
        ≡ returns (from_table, s.discovery.inner.dht)
    pub runs_mdns :
        run (mdns_discovery m) (left_over asks from_table) start.mdns
        ≡ returns (from_locator, s.discovery.inner.mdns)
    pub locates :
        from_locator ≡ answers m (count_polls (left_over asks from_table)) start.mdns.locator
    pub gives : s.discovery.results ≡ merge from_table from_locator
    pub dials : s.transport.dialled ≡ map addr (emitted_all s.discovery.results)
    pub finds :
        emitted_all from_table ++ s.discovery.inner.dht.pending_events
        ≡ found s.discovery.inner.dht.state.seen
    pub queries :
        s.discovery.inner.dht.state.issued ++ s.discovery.inner.dht.pending_commands
        ≡ requested port s.discovery.log

  -- The end of `Hyperswarm::bind`, with the discovery that was bound.
  bound_parts :
      (t₀ : TransportRecording.Recorded S T)
      (bound : IoResult (Recording.Recorded (Found hyper rounds m)))
      {s : Watched (Found hyper rounds m) S T Q}
      → ◌≡◌ {A = Outcome (IoResult (Watched (Found hyper rounds m) S T Q))}
          (and_then bound λ discovery'. returns (
            ok (record {
              topics = [];
              discovery = discovery';
              transport = t₀;
              commands = channel.unbounded;
            })))
          (returns (ok s))
      → (bound ≡ ok s.discovery) × (t₀ ≡ s.transport)
  bound_parts t₀ (ok discovery) h = ground arith
  bound_parts t₀ (err e) h = absurd cc

  bind_parts :
      (inner : S) (local_addr : TransportRecording.Recorded S T → SocketAddr)
      (bind_found : ℕ → IoResult (Found hyper rounds m)) {s : Watched (Found hyper rounds m) S T Q}
      → bind_swarm hyper rounds m transport channel inner local_addr bind_found ≡ returns (ok s)
      → let t₀ : TransportRecording.Recorded S T = record {
        inner = inner;
        dialled = [];
        results = [];
      } in
        (recorded (bind_found (port_of (local_addr t₀))) ≡ ok s.discovery) × (t₀ ≡ s.transport)
  unfolding Swarm.bind
  bind_parts inner local_addr bind_found h =
      bound_parts _ (recorded (bind_found (port_of (local_addr _)))) h

  -- Where the queue of the discovery over multicast DNS is an unbounded open one: for any table,
  -- locator, transport and results of making the sockets, a swarm that `bind` has just made over the
  -- combined discovery and that transport, each wrapped so that it keeps a record, and any sequence
  -- of calls on the swarm that runs to its end: there is a sequence of calls of the discovery, with
  -- one poll for each poll of the swarm and with the lookups and announcements that the swarm asked
  -- for, in order, that the table's discovery runs through from its bound state to its last one,
  -- while the one over multicast DNS runs from its bound state to its last one through all of it but
  -- the polls that the table's answered, to which it gives what the locator alone answers to as many
  -- polls; the addresses that the swarm has had the transport connect to are, in order, those of the
  -- peers in the results of the table's discovery, with those of the other in the places where the
  -- first said `Pending`; the peers that the table's discovery gave, followed by those still queued,
  -- are those that the table's events bring, in order; and what the table was asked, followed by
  -- what is still queued for it, are those lookups and announcements, each with the port of the
  -- transport's address.
  pub bind-Sourced :
      IsFifo m.channel
      → (inner : S) (local_addr : TransportRecording.Recorded S T → SocketAddr) (table : D)
        (random : IdBytes) (created created' : IoResult SM) (config : MdnsConfig) (fuel : ℕ)
        (calls : List SwarmCalls.Call) {s : Watched (Found hyper rounds m) S T Q}
        {results : List (Next (Connection T))} {s' : Watched (Found hyper rounds m) S T Q}
      → bind_swarm hyper rounds m transport channel inner local_addr
          (bind_discoveries hyper rounds m table random created created' config)
        ≡ returns (ok s)
      → SwarmCalls.run
          (Recording.recording (discoveries hyper rounds m))
          (TransportRecording.recording transport)
          channel
          fuel
          calls
          s
        ≡ returns (results, s')
      → Sourced (port_of (local_addr s.transport)) s.discovery.inner results s'
  bind-Sourced fifo inner local_addr table random created created' config fuel calls {s} {results}
        {s'} b e =
      let (bound, fresh) = bind_parts inner local_addr _ b in
      let (bound_mdns, bound_dht, no_log, no_results) = recorded_parts _ _ s.discovery bound in
      let undialled : s.transport.dialled ≡ [] =
        sym (ap (λ (t : TransportRecording.Recorded S T). t.dialled) fresh) in
      let unpolled : s.transport.results ≡ [] =
        sym (ap (λ (t : TransportRecording.Recorded S T). t.results) fresh) in
      let books =
        run-Balanced (discoveries hyper rounds m) transport channel fuel calls [] s
          (record {
            dials = rw (undialled, no_results) refl;
            connects = rw unpolled refl;
            fails = rw no_results refl;
            polls = rw no_results refl;
          })
          e in
      let (asks, given, driven) = run-Leads _ _ channel fuel calls s e in
      let (more, log, ran) = run-recorded (discoveries hyper rounds m) asks s.discovery driven in
      let (firsts, seconds, ran_dht, ran_mdns, woven) = run-Weaves _ _ asks s.discovery.inner ran in
      let accounted = bind-Accounted hyper rounds _ table asks bound_dht ran_dht in
      let (end_mdns, answered) =
        run-answers m fifo (left_over asks firsts) s.discovery.inner.mdns
          (bind_idle m random created created' config _ bound_mdns) in
      let found_all : s'.discovery.results ≡ merge firsts seconds =
        more ∙ ap (λ (y : List (Next PeerInfo)). y ++ given) no_results ∙ woven in
      let logged_all : s'.discovery.log ≡ asked asks =
        log ∙ ap (λ (y : List Call). y ++ asked asks) no_log in
      record {
        asks = asks;
        from_table = firsts;
        from_locator = seconds;
        logs = logged_all;
        polls =
            sym (length-run (discoveries hyper rounds m) asks s.discovery.inner ran)
            ∙ ap length (sym (more ∙ ap (λ (y : List (Next PeerInfo)). y ++ given) no_results))
            ∙ books.polls;
        runs_table = ran_dht;
        runs_mdns = ran_mdns;
        locates = (returns-injective (sym ran_mdns ∙ answered)).0;
        gives = found_all;
        dials = books.dials;
        finds = accounted.events;
        queries =
            accounted.commands
            ∙ ap (λ (t : TransportRecording.Recorded S T). requested (port_of (local_addr t)) asks)
                fresh
            ∙ sym (requested-asked _ asks)
            ∙ ap (requested _) (sym logged_all);
      }
