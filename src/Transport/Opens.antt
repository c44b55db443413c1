-- ===== src/Transport/Opens.antt =====
-- src/transport/tcp.rs and src/transport/utp.rs: how many connections a transport opens.
use hyperswarm_rs.Prelude.{
  ◌+◌, ◌≤◌, ◌≡◌, refl, Bool, none, some, List, IoResult, ok, err, pending, ready, Next, returns,
  arith, length,
}
use hyperswarm_rs.Prelude.Outcomes.{>>=-eq-returns, subst_returns}
use hyperswarm_rs.Net.{SocketAddr}
use hyperswarm_rs.Transport.{Connection, connection}
use hyperswarm_rs.Transport.Calls.{Call, initiated, initiated_all, run}
use hyperswarm_rs.Transport.Sources.{poll_sources}
use hyperswarm_rs.Transport.Sources.Cases.{poll_sources-Polled}
use hyperswarm_rs.Transport.Sources.Opens.{IsCollection, count_connects, Polled-opens, run-opens}
use hyperswarm_rs.Transport.Tcp.{Tcp, TcpTransport, tcp_transport}
use hyperswarm_rs.Transport.Tcp as OverTcp
use hyperswarm_rs.Transport.Utp.{Utp, UtpTransport, UtpStream, utp_transport}
use hyperswarm_rs.Transport.Utp as OverUtp

module _ {T L F C U : Type 0} (tcp : Tcp T L F C U) where
  tcp_side :
      (next : Next T) (is_initiator : Bool) (conn : Connection T)
      → OverTcp.into_connection tcp next is_initiator ≡ returns (some (ok conn))
      → conn.is_initiator ≡ is_initiator
  unfolding OverTcp.into_connection connection
  tcp_side pending is_initiator conn e = cc
  tcp_side (ready none) is_initiator conn e = cc
  tcp_side (ready (some (err x))) is_initiator conn e = cc
  tcp_side (ready (some (ok stream))) is_initiator conn e = ground arith

  tcp_item :
      (next : Next T) (is_initiator : Bool) (res : IoResult (Connection T))
      → OverTcp.into_connection tcp next is_initiator ≡ returns (some res)
      → (x : IoResult T) × (next ≡ ready (some x))
  unfolding OverTcp.into_connection
  tcp_item pending is_initiator res e = absurd cc
  tcp_item (ready none) is_initiator res e = absurd cc
  tcp_item (ready (some x)) is_initiator res e = (x, refl)

  module _ (collection : IsCollection tcp.connects) where
    tcp_opens :
        (s s' : TcpTransport F U) (result : Next (Connection T))
        → OverTcp.poll_next tcp s ≡ returns (result, s')
        → length (initiated result) + collection.size s'.pending_connects
          ≤ collection.size s.pending_connects
    unfolding OverTcp.poll_next
    tcp_opens s s' result e =
        let p =
          >>=-eq-returns
            (poll_sources (OverTcp.into_connection tcp) (OverTcp.poll_incoming tcp)
              tcp.connects.poll_next s.incoming s.pending_connects)
            _ e in
        subst_returns
          (λ r (u : TcpTransport F U).
            length (initiated r) + collection.size u.pending_connects
            ≤ collection.size s.pending_connects)
          p.2
          (Polled-opens (record { side = tcp_side; item = tcp_item }) (OverTcp.poll_incoming tcp)
            collection s.incoming s.pending_connects
            (poll_sources-Polled (OverTcp.into_connection tcp) (OverTcp.poll_incoming tcp)
              tcp.connects.poll_next s.incoming s.pending_connects p.1))

    -- Where the futures of `TcpStream::connect` are kept in a collection that begins empty, holds
    -- one more after each push and one fewer after it gives an output: in any sequence of calls that
    -- runs to its end on a TCP transport that `bind` has just made, the polls hand out at most as
    -- many connections opened by this side as `connect` was called.
    pub tcp_run-opens :
        (addrs : IoResult (List SocketAddr)) (listen : SocketAddr → IoResult L) (calls : List Call)
        {s : TcpTransport F U} {results : List (Next (Connection T))} {s' : TcpTransport F U}
        → OverTcp.bind tcp addrs listen ≡ returns (ok s)
        → run (tcp_transport tcp) calls s ≡ returns (results, s')
        → length (initiated_all results) ≤ count_connects calls
    unfolding OverTcp.bind OverTcp.connect
    tcp_run-opens addrs listen calls {s} b e =
        let fresh : s.pending_connects ≡ tcp.connects.new = ground arith in
        let empty : collection.size s.pending_connects ≡ 0 = rw fresh collection.new_empty in
        let bound =
          run-opens (tcp_transport tcp)
            (λ (t : TcpTransport F U). collection.size t.pending_connects)
            (λ addr t. collection.push_one _ t.pending_connects) tcp_opens calls s e in
        omega (arith, bound, empty)

module _ {T X L C U : Type 0} (utp : Utp T X L C U) where
  utp_side :
      (next : Next T) (is_initiator : Bool) (conn : Connection (UtpStream T))
      → OverUtp.into_connection utp next is_initiator ≡ returns (some (ok conn))
      → conn.is_initiator ≡ is_initiator
  unfolding OverUtp.into_connection connection
  utp_side pending is_initiator conn e = cc
  utp_side (ready none) is_initiator conn e = cc
  utp_side (ready (some (err x))) is_initiator conn e = cc
  utp_side (ready (some (ok socket))) is_initiator conn e = ground arith

  utp_item :
      (next : Next T) (is_initiator : Bool) (res : IoResult (Connection (UtpStream T)))
      → OverUtp.into_connection utp next is_initiator ≡ returns (some res)
      → (x : IoResult T) × (next ≡ ready (some x))
  unfolding OverUtp.into_connection
  utp_item pending is_initiator res e = absurd cc
  utp_item (ready none) is_initiator res e = absurd cc
  utp_item (ready (some x)) is_initiator res e = (x, refl)

  module _ (collection : IsCollection utp.connects) where
    utp_opens :
        (s s' : UtpTransport X L U) (result : Next (Connection (UtpStream T)))
        → OverUtp.poll_next utp s ≡ returns (result, s')
        → length (initiated result) + collection.size s'.pending_connects
          ≤ collection.size s.pending_connects
    unfolding OverUtp.poll_next
    utp_opens s s' result e =
        let p =
          >>=-eq-returns
            (poll_sources (OverUtp.into_connection utp) utp.poll_listener utp.connects.poll_next
              s.incoming s.pending_connects)
            _ e in
        subst_returns
          (λ r (u : UtpTransport X L U).
            length (initiated r) + collection.size u.pending_connects
            ≤ collection.size s.pending_connects)
          p.2
          (Polled-opens (record { side = utp_side; item = utp_item }) utp.poll_listener collection
            s.incoming s.pending_connects
            (poll_sources-Polled (OverUtp.into_connection utp) utp.poll_listener
              utp.connects.poll_next s.incoming s.pending_connects p.1))

    -- Where the futures of the context's `connect` are kept in a collection that begins empty, holds
    -- one more after each push and one fewer after it gives an output: in any sequence of calls that
    -- runs to its end on a uTP transport that `bind` has just made, the polls hand out at most as
    -- many connections opened by this side as `connect` was called.
    pub utp_run-opens :
        (addrs : IoResult (List SocketAddr)) (bind_context : SocketAddr → IoResult X)
        (calls : List Call) {s : UtpTransport X L U}
        {results : List (Next (Connection (UtpStream T)))} {s' : UtpTransport X L U}
        → OverUtp.bind utp addrs bind_context ≡ returns (ok s)
        → run (utp_transport utp) calls s ≡ returns (results, s')
        → length (initiated_all results) ≤ count_connects calls
    unfolding OverUtp.bind OverUtp.connect
    utp_run-opens addrs bind_context calls {s} b e =
        let fresh : s.pending_connects ≡ utp.connects.new = ground arith in
        let empty : collection.size s.pending_connects ≡ 0 = rw fresh collection.new_empty in
        let bound =
          run-opens (utp_transport utp)
            (λ (t : UtpTransport X L U). collection.size t.pending_connects)
            (λ addr t. collection.push_one _ t.pending_connects) utp_opens calls s e in
        omega (arith, bound, empty)
