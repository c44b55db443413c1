-- ===== src/Transport/Stream.antt =====
-- Streams of bytes, which the connections of src/transport/mod.rs, the streams of
-- src/transport/combined.rs and those of src/transport/utp.rs pass on to what they hold.
pub mod Transparent
pub mod Labels
pub mod Agreement
use hyperswarm_rs.Prelude.{
  ℕ, String, List, Option, some, none, IoResult, ok, err, Poll, Outcome, returns, panics,
}
use hyperswarm_rs.Net.{SocketAddr}
use hyperswarm_rs.Transport.{Connection}
use hyperswarm_rs.Transport.Tcp.{Tcp}
use hyperswarm_rs.Transport.Utp.{Utp, UtpStream, stream_peer_addr}
use hyperswarm_rs.Transport.Combined.{CombinedStream}

-- AsyncRead and AsyncWrite. A read is given the length of the buffer, and gives the bytes put in it.
pub record AsyncStream (T : Type 0) : Type 0 where
  pub poll_read : ℕ → T → Poll (IoResult (List ℕ)) × T
  pub poll_write : List ℕ → T → Poll (IoResult ℕ) × T
  pub poll_flush : T → Poll (IoResult (Unit {0})) × T
  pub poll_close : T → Poll (IoResult (Unit {0})) × T

-- What an operation on a part does to the whole.
abbrev on_inner : {A T : Type 0} → A × T → Connection T → A × Connection T
on_inner (a, inner) c = (a, record c { inner = inner })

unfoldable pub connection_stream : {T : Type 0} → AsyncStream T → AsyncStream (Connection T)
connection_stream io = record {
  poll_read = λ n c. on_inner (io.poll_read n c.inner) c;
  poll_write = λ bytes c. on_inner (io.poll_write bytes c.inner) c;
  poll_flush = λ c. on_inner (io.poll_flush c.inner) c;
  poll_close = λ c. on_inner (io.poll_close c.inner) c;
}

-- The socket's operations, through `Compat`.
unfoldable pub utp_stream : {T : Type 0} → AsyncStream T → AsyncStream (UtpStream T)
utp_stream io = record {
  poll_read = λ n s. let (a, t) = io.poll_read n s.inner in (a, record { inner = t });
  poll_write = λ bytes s. let (a, t) = io.poll_write bytes s.inner in (a, record { inner = t });
  poll_flush = λ s. let (a, t) = io.poll_flush s.inner in (a, record { inner = t });
  poll_close = λ s. let (a, t) = io.poll_close s.inner in (a, record { inner = t });
}

-- The `match` on the kind of stream, for an operation that both kinds have.
abbrev on_either :
    {A T₁ T₂ : Type 0}
    → (T₁ → A × T₁)
    → (T₂ → A × T₂)
    → CombinedStream T₁ T₂
    → A × CombinedStream T₁ T₂
on_either f g (CombinedStream.tcp stream) =
    let (a, stream') = f stream in (a, CombinedStream.tcp stream')
on_either f g (CombinedStream.utp stream) =
    let (a, stream') = g stream in (a, CombinedStream.utp stream')

unfoldable pub combined_stream :
    {T₁ T₂ : Type 0} → AsyncStream T₁ → AsyncStream T₂ → AsyncStream (CombinedStream T₁ T₂)
combined_stream tcp_io utp_io = record {
  poll_read = λ n. on_either (tcp_io.poll_read n) (utp_io.poll_read n);
  poll_write = λ bytes. on_either (tcp_io.poll_write bytes) (utp_io.poll_write bytes);
  poll_flush = on_either tcp_io.poll_flush utp_io.poll_flush;
  poll_close = on_either tcp_io.poll_close utp_io.poll_close;
}

-- CombinedStream::protocol
unfoldable pub protocol : {T₁ T₂ : Type 0} → CombinedStream T₁ T₂ → String
protocol (CombinedStream.tcp stream) = "tcp"
protocol (CombinedStream.utp stream) = "utp"

-- CombinedStream::peer_addr
unfoldable pub peer_addr :
    {T₁ T₂ L F C U X L' C' U' : Type 0}
    → Tcp T₁ L F C U
    → Utp T₂ X L' C' U'
    → CombinedStream T₁ (UtpStream T₂)
    → Outcome SocketAddr
peer_addr tcp utp (CombinedStream.tcp stream) = elim (tcp.peer_addr stream) [
  | ok addr ↦ returns addr
  | err e ↦ panics
]
peer_addr tcp utp (CombinedStream.utp stream) = returns (stream_peer_addr utp stream)
