-- ===== src/Transport/Utp.antt =====
-- src/transport/utp.rs: connections over uTP.
-- The context, the listener and the sockets are libutp_rs's: the record `Utp` is what the source calls
-- of them.
use hyperswarm_rs.Prelude.{
  Bool, String, Option, none, some, List, IoResult, ok, err, pending, ready, Next, Outcome, returns,
  first,
}
use hyperswarm_rs.Prelude.Outcomes
use hyperswarm_rs.Prelude.Outcomes.{and_then}
use hyperswarm_rs.Net.{SocketAddr}
use hyperswarm_rs.Transport.{Connection, connection, Transport, FuturesUnordered}
use hyperswarm_rs.Transport.Sources.{poll_sources}

abbrev pub protocol : String
protocol = "utp"

-- Sockets `T`, contexts `X`, listeners `L`, futures `C` of `context.connect`, and a collection `U` of
-- these. A connect may change the context.
pub record Utp (T X L C U : Type 0) : Type 0 where
  pub peer_addr : T → SocketAddr
  pub listener : X → L
  pub poll_listener : L → Next T × L
  pub connect : SocketAddr → X → C × X
  pub connects : FuturesUnordered U C (IoResult T)

pub record UtpTransport (X L U : Type 0) : Type 0 where
  pub context : X
  pub pending_connects : U
  pub incoming : L

-- `Compat<UtpSocket>` passes everything on to the socket.
pub record UtpStream (T : Type 0) : Type 0 where
  pub inner : T

abbrev pub stream_new : {T : Type 0} → T → UtpStream T
stream_new socket = record { inner = socket }

module _ {T X L C U : Type 0} (utp : Utp T X L C U) where
  -- UtpStream::peer_addr
  abbrev pub stream_peer_addr : UtpStream T → SocketAddr
  stream_peer_addr s = utp.peer_addr s.inner

  -- `bind`, given the addresses that `local_addr` resolves to and what binding a context results in.
  unfoldable pub bind :
      IoResult (List SocketAddr)
      → (SocketAddr → IoResult X)
      → Outcome (IoResult (UtpTransport X L U))
  bind addrs bind_context = and_then addrs λ found.
      Outcomes.◌>>=◌ (Outcomes.unwrap (first found)) λ addr. and_then (bind_context addr) λ context.
        returns (
          ok (record {
            context = context;
            incoming = utp.listener context;
            pending_connects = utp.connects.new;
          }))

  unfoldable pub into_connection :
      Next T → Bool → Outcome (Option (IoResult (Connection (UtpStream T))))
  into_connection pending is_initiator = returns none
  into_connection (ready none) is_initiator = returns none
  into_connection (ready (some (err e))) is_initiator = returns (some (err e))
  into_connection (ready (some (ok socket))) is_initiator =
      let stream = stream_new socket in
      let peer_addr = stream_peer_addr stream in
      returns (some (ok (connection stream peer_addr is_initiator protocol)))

  unfoldable pub connect : SocketAddr → UtpTransport X L U → UtpTransport X L U
  connect peer_addr s =
      let (fut, context) = utp.connect peer_addr s.context in
      record s { context = context; pending_connects = utp.connects.push fut s.pending_connects }

  unfoldable pub poll_next :
      UtpTransport X L U → Outcome (Next (Connection (UtpStream T)) × UtpTransport X L U)
  unfolding poll_sources into_connection
  poll_next s =
      Outcomes.◌>>=◌
        (poll_sources into_connection utp.poll_listener utp.connects.poll_next s.incoming
          s.pending_connects)
        λ (result, incoming, connects).
          returns (result, record s { incoming = incoming; pending_connects = connects })

  abbrev pub utp_transport : Transport (UtpTransport X L U) (UtpStream T)
  utp_transport = record { connect = connect; poll_next = poll_next }
