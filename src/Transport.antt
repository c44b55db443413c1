-- ===== src/Transport.antt =====
-- src/transport/mod.rs: connections, and the trait `Transport`.
pub mod Calls
pub mod Recording
pub mod Sources
pub mod Tcp
pub mod Utp
pub mod Combined
pub mod Stream
pub mod Opens
pub mod Total
use hyperswarm_rs.Prelude.{Bool, String, Option, Poll, Next, Outcome}
use hyperswarm_rs.Net.{SocketAddr}

pub record Connection (T : Type 0) : Type 0 where
  pub inner : T
  pub peer_addr : SocketAddr
  pub is_initiator : Bool
  pub protocol : String

unfoldable pub connection : {T : Type 0} → T → SocketAddr → Bool → String → Connection T
connection inner peer_addr is_initiator protocol = record {
  inner = inner;
  peer_addr = peer_addr;
  is_initiator = is_initiator;
  protocol = protocol;
}

unfoldable pub into_parts : {T : Type 0} → Connection T → T × SocketAddr × Bool × String
into_parts c = (c.inner, c.peer_addr, c.is_initiator, c.protocol)

-- The trait: what a transport over the state `S` with streams `T` provides.
pub record Transport (S T : Type 0) : Type 0 where
  pub connect : SocketAddr → S → S
  pub poll_next : S → Outcome (Next (Connection T) × S)

-- futures::stream::FuturesUnordered, of another crate: a collection `U` of futures `C`, polled for the
-- output of any that is done.
pub record FuturesUnordered (U C A : Type 0) : Type 0 where
  pub new : U
  pub push : C → U → U
  pub poll_next : U → Poll (Option A) × U
