-- ===== src/Transport/Tcp.antt =====
-- src/transport/tcp.rs: connections over TCP.
-- Listeners, streams and the futures over them are async_std's and futures': the record `Tcp` is what
-- the source calls of them.
use hyperswarm_rs.Prelude.{
  Bool, String, Option, none, some, List, IoResult, ok, err, Poll, pending, ready, Next, Outcome,
  returns, panics, first,
}
use hyperswarm_rs.Prelude.Io
use hyperswarm_rs.Prelude.Outcomes
use hyperswarm_rs.Prelude.Outcomes.{and_then}
use hyperswarm_rs.Net.{SocketAddr}
use hyperswarm_rs.Transport.{Connection, connection, Transport, FuturesUnordered}
use hyperswarm_rs.Transport.Sources.{poll_sources}

abbrev pub protocol : String
protocol = "tcp"

-- Streams `T`, listeners `L`, futures `F` of the source's `accept(listener)`, which hand the listener
-- back, futures `C` of `TcpStream::connect`, and a collection `U` of these.
pub record Tcp (T L F C U : Type 0) : Type 0 where
  pub peer_addr : T → IoResult SocketAddr
  pub local_addr : L → IoResult SocketAddr
  pub accept : L → F
  pub poll_accept : F → Poll (L × IoResult (T × SocketAddr)) × F
  pub connect : SocketAddr → C
  pub connects : FuturesUnordered U C (IoResult T)

pub record TcpIncoming (F : Type 0) : Type 0 where
  pub local_addr : SocketAddr
  pub accept : F

pub record TcpTransport (F U : Type 0) : Type 0 where
  pub addr : SocketAddr
  pub incoming : TcpIncoming F
  pub pending_connects : U

-- `res.map(|r| r.0)`
abbrev pub stream_of : {T : Type 0} → IoResult (T × SocketAddr) → IoResult T
stream_of (ok (stream, addr)) = ok stream
stream_of (err e) = err e

module _ {T L F C U : Type 0} (tcp : Tcp T L F C U) where
  -- TcpIncoming::new
  unfoldable pub incoming_new : L → IoResult (TcpIncoming F)
  incoming_new listener =
      Io.◌>>=◌ (tcp.local_addr listener)
        λ local_addr. ok (record { local_addr = local_addr; accept = tcp.accept listener })

  -- `bind`, given the addresses that `local_addr` resolves to and what binding a listener results in.
  unfoldable pub bind :
      IoResult (List SocketAddr) → (SocketAddr → IoResult L) → Outcome (IoResult (TcpTransport F U))
  unfolding incoming_new
  bind addrs listen = and_then addrs λ found. Outcomes.◌>>=◌ (Outcomes.unwrap (first found)) λ addr.
      and_then (listen addr) λ listener. and_then (tcp.local_addr listener) λ local.
        and_then (incoming_new listener) λ incoming.
          returns
            (ok (record { addr = local; incoming = incoming; pending_connects = tcp.connects.new }))

  -- TcpIncoming::poll_next: a new `accept` is started when one is done.
  unfoldable pub poll_incoming : TcpIncoming F → Next T × TcpIncoming F
  poll_incoming s =
      let (polled, accept) = tcp.poll_accept s.accept in
      elim polled [
        | pending ↦ (pending, record s { accept = accept })
        | ready (listener, res) ↦
            (ready (some (stream_of res)), record s { accept = tcp.accept listener })
      ]

  unfoldable pub into_connection : Next T → Bool → Outcome (Option (IoResult (Connection T)))
  into_connection pending is_initiator = returns none
  into_connection (ready none) is_initiator = returns none
  into_connection (ready (some (err e))) is_initiator = returns (some (err e))
  into_connection (ready (some (ok stream))) is_initiator = elim (tcp.peer_addr stream) [
    | ok peer_addr ↦ returns (some (ok (connection stream peer_addr is_initiator protocol)))
    | err e ↦ panics
  ]

  unfoldable pub connect : SocketAddr → TcpTransport F U → TcpTransport F U
  connect peer_addr s = record s {
    pending_connects = tcp.connects.push (tcp.connect peer_addr) s.pending_connects;
  }

  unfoldable pub poll_next : TcpTransport F U → Outcome (Next (Connection T) × TcpTransport F U)
  unfolding poll_sources into_connection poll_incoming
  poll_next s =
      Outcomes.◌>>=◌
        (poll_sources into_connection poll_incoming tcp.connects.poll_next s.incoming
          s.pending_connects)
        λ (result, incoming, connects).
          returns (result, record s { incoming = incoming; pending_connects = connects })

  abbrev pub tcp_transport : Transport (TcpTransport F U) T
  tcp_transport = record { connect = connect; poll_next = poll_next }
