-- ===== src/Tests/Doubles.antt =====
-- Stand-ins for what is not in this repository, which play back a script.
use hyperswarm_rs.Prelude.{
  ℕ, Bool, true, ok, refl, IoResult, ◌+◌, ◌≤◌, ◌<◌, ◌≡◌, ◌≢◌, none, some, List, [], ◌∷◌, ◌++◌,
  pending, ready, Next, returns, length, length-append, arith,
}
use hyperswarm_rs.Net.{SocketAddr, socket_v4}
use hyperswarm_rs.Config.{DhtSettings}
use hyperswarm_rs.Discovery.{Topic, PeerInfo, Discovery}
use hyperswarm_rs.Discovery.Dht.{HyperDht, HyperDhtEvent, announce_result, lookup_result, QueryOpts}
use hyperswarm_rs.Discovery.Mdns.{Mdns}
use hyperswarm_rs.Discovery.Mdns
use hyperswarm_rs.Channel.{list_channel}
use hyperswarm_rs.Discovery.Dht.Termination.{IsDraining}
use hyperswarm_rs.Transport.{Connection, Transport, FuturesUnordered}
use hyperswarm_rs.Transport.Sources.Opens.{IsCollection}
use hyperswarm_rs.Transport.Tcp.{Tcp}
use hyperswarm_rs.Transport.Utp.{Utp}

abbrev pub peer : ℕ → SocketAddr
peer n = socket_v4 n 49737

-- A topic: thirty-two bytes, all `b`.
abbrev pub topic_of : ℕ → Topic
topic_of b = eight (eight (eight (eight [])))
  where
    eight : List ℕ → List ℕ
    eight r = b ∷ b ∷ b ∷ b ∷ b ∷ b ∷ b ∷ b ∷ r

-- A table that gives the events of a list; each query puts its own event at the end.
abbrev pub scripted_dht : HyperDht (List HyperDhtEvent)
scripted_dht = record {
  announce = λ opts events. events ++ announce_result ∷ [];
  lookup = λ opts events.
      events ++ lookup_result (record { topic = opts.topic; remotes = peer 1 ∷ peer 2 ∷ [] }) ∷ [];
  poll_next =
      λ events. elim events [ [] ↦ (pending, []) | event ∷ rest ↦ (ready (some event), rest) ];
}

pub poll_less :
    (d : List HyperDhtEvent) (event : HyperDhtEvent)
    → (scripted_dht.poll_next d).0 ≡ ready (some event)
    → length (scripted_dht.poll_next d).1 < length d
poll_less [] event e = cc
poll_less (x ∷ d) event e = omega arith

pub never_ends : (d : List HyperDhtEvent) → (scripted_dht.poll_next d).0 ≢ ready none
never_ends [] e = cc
never_ends (x ∷ d) e = cc

pub announce_le :
    (opts : QueryOpts) (d : List HyperDhtEvent)
    → length (scripted_dht.announce opts d) ≤ length d + 1
announce_le opts d = omega (arith, length-append d (announce_result ∷ []))

pub lookup_le :
    (opts : QueryOpts) (d : List HyperDhtEvent) → length (scripted_dht.lookup opts d) ≤ length d + 1
lookup_le opts d = omega (arith, length-append d (lookup_result _ ∷ []))

abbrev pub scripted_dht-IsDraining : IsDraining scripted_dht
scripted_dht-IsDraining = record {
  backlog = length;
  burst = 1;
  never_ends = never_ends;
  poll_less = poll_less;
  announce_le = announce_le;
  lookup_le = lookup_le;
}

-- A transport that gives the results of a list and keeps the list of the addresses to connect to.
abbrev pub scripted_transport :
    {T : Type 0} → Transport (List SocketAddr × List (Next (Connection T))) T
scripted_transport = record {
  connect = λ addr (dials, results). (dials ++ addr ∷ [], results);
  poll_next = λ (dials, results). elim results [
    | [] ↦ returns (pending, (dials, []))
    | result ∷ rest ↦ returns (result, (dials, rest))
  ];
}

-- A discovery that gives the results of a list.
abbrev pub scripted_discovery : Discovery (List (Next PeerInfo))
scripted_discovery = record {
  lookup = λ topic results. returns results;
  announce = λ topic results. returns results;
  poll_next = λ results. elim results [
    | [] ↦ returns (pending, [])
    | result ∷ rest ↦ returns (result, rest)
  ];
}

-- Futures that are done in the order in which they were put in.
abbrev pub in_order : FuturesUnordered (List SocketAddr) SocketAddr (IoResult SocketAddr)
in_order = record {
  new = [];
  push = λ addr addrs. addrs ++ addr ∷ [];
  poll_next =
      λ addrs. elim addrs [ [] ↦ (ready none, []) | addr ∷ rest ↦ (ready (some (ok addr)), rest) ];
}

-- Sockets that are the addresses of their peers; a listener has those that come in.
abbrev pub addressed_tcp :
    Tcp SocketAddr (List SocketAddr) (List SocketAddr) SocketAddr (List SocketAddr)
addressed_tcp = record {
  peer_addr = λ stream. ok stream;
  local_addr = λ listener. ok (peer 0);
  accept = λ listener. listener;
  poll_accept = λ listener. elim listener [
    | [] ↦ (pending, [])
    | addr ∷ rest ↦ (ready (rest, ok (addr, addr)), rest)
  ];
  connect = λ addr. addr;
  connects = in_order;
}

abbrev pub addressed_utp :
    Utp SocketAddr (List SocketAddr) (List SocketAddr) SocketAddr (List SocketAddr)
addressed_utp = record {
  peer_addr = λ socket. socket;
  connect = λ addr context. (addr, context);
  listener = λ context. context;
  poll_listener = λ listener. elim listener [
    | [] ↦ (pending, [])
    | addr ∷ rest ↦ (ready (some (ok addr)), rest)
  ];
  connects = in_order;
}

pub in_order_push :
    (fut : SocketAddr) (u : List SocketAddr) → length (in_order.push fut u) ≡ length u + 1
in_order_push fut u = omega (arith, length-append u (fut ∷ []))

pub in_order_less :
    (u : List SocketAddr) (a : IoResult SocketAddr)
    → (in_order.poll_next u).0 ≡ ready (some a)
    → length (in_order.poll_next u).1 < length u
in_order_less [] a e = cc
in_order_less (x ∷ u) a e = omega arith

pub in_order_le : (u : List SocketAddr) → length (in_order.poll_next u).1 ≤ length u
in_order_le [] = omega arith
in_order_le (x ∷ u) = omega arith

abbrev pub in_order-IsCollection : IsCollection in_order
in_order-IsCollection = record {
  size = length;
  new_empty = refl;
  push_one = in_order_push;
  poll_less = in_order_less;
  poll_le = in_order_le;
}

-- The table's configuration, as the addresses and the flag.
abbrev pub settings : DhtSettings (List ℕ × Bool) ℕ
settings = record {
  default = (7 ∷ [], true);
  set_bootstrap_nodes = λ (known, ephemeral) addresses. (addresses, ephemeral);
  empty_bootstrap_nodes = λ (known, ephemeral). ([], ephemeral);
  set_ephemeral = λ (known, old) ephemeral. (known, ephemeral);
}

abbrev pub Answers : Type 0
Answers = List (List ℕ × SocketAddr)

-- A locator that hears the answers of a list, an announcer that counts its polls, and no futures.
abbrev pub scripted_mdns : Mdns Answers ℕ ⊥ (List Mdns.Command) Answers
scripted_mdns = record {
  channel = list_channel;
  poll_locator =
      λ script. elim script [ [] ↦ (pending, []) | answer ∷ rest ↦ (ready (some answer), rest) ];
  poll_announcer = λ n. n + 1;
  poll_future = λ f. absurd f;
  listen_locator = λ script interval id. script;
  listen_announcer = λ script port id. 0;
  hex_encode = λ id. id;
}
