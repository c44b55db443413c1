-- ===== src/Transport/Combined.antt =====
-- src/transport/combined.rs: TCP and uTP as one transport (with the feature `transport_utp`, which is on
-- by default).
pub mod Dedup
pub mod Ledger
pub mod Passes
pub mod Lossless
pub mod Silence
use hyperswarm_rs.Prelude.{
  ℕ, Bool, true, false, not, String, Option, none, some, List, [], ◌∷◌, ◌++◌, IoResult, ok, err,
  Poll, pending, ready, Next, Outcome, returns, panics, if◌then◌else◌, is_yes,
}
use hyperswarm_rs.Prelude.Outcomes
use hyperswarm_rs.Prelude.Outcomes.{and_then}
use hyperswarm_rs.Net.{SocketAddr, SocketAddr-discrete, IpAddr, v4, socket_addr}
use hyperswarm_rs.Util.{to_socket_addr}
use hyperswarm_rs.Transport.{Connection, connection, into_parts, Transport}

pub data CombinedStream (T₁ T₂ : Type 0) : Type 0 where
  tcp : T₁ → CombinedStream T₁ T₂
  utp : T₂ → CombinedStream T₁ T₂

-- `connected` is a `HashSet`: a list without repetitions, in the order of insertion.
pub record CombinedTransport (S₁ S₂ : Type 0) : Type 0 where
  pub tcp : S₁
  pub utp : S₂
  pub local_addr : SocketAddr
  pub connected : List SocketAddr

-- HashSet::contains
abbrev pub contains : List SocketAddr → SocketAddr → Bool
contains [] addr = false
contains (x ∷ xs) addr =
    let rest = contains xs addr in if is_yes (SocketAddr-discrete x addr) then true else rest

-- HashSet::insert
abbrev pub insert : List SocketAddr → SocketAddr → List SocketAddr
insert xs addr = if contains xs addr then xs else xs ++ addr ∷ []

abbrev pub default_socket_addr : SocketAddr
default_socket_addr = socket_addr (v4 0) 0

-- What an optional address resolves to is given.
unfoldable pub unwrap_socket_addr : Option (IoResult (List SocketAddr)) → IoResult SocketAddr
unwrap_socket_addr none = ok default_socket_addr
unwrap_socket_addr (some resolved) = to_socket_addr resolved

-- `bind`, given how the parts are bound to an address and the address of a bound TCP transport.
unfoldable pub bind :
    {S₁ S₂ : Type 0}
    → (SocketAddr → Outcome (IoResult S₁))
    → (S₁ → SocketAddr)
    → (SocketAddr → Outcome (IoResult S₂))
    → Option (IoResult (List SocketAddr))
    → Outcome (IoResult (CombinedTransport S₁ S₂))
bind bind_tcp tcp_addr bind_utp addr = and_then (unwrap_socket_addr addr) λ wanted.
    Outcomes.◌>>=◌ (bind_tcp wanted) λ bound. and_then bound λ tcp.
      let local = tcp_addr tcp in
      Outcomes.◌>>=◌ (bind_utp local) λ bound'.
        and_then bound'
          λ utp. returns (ok (record { tcp = tcp; utp = utp; local_addr = local; connected = [] }))

module _ {S₁ S₂ T₁ T₂ : Type 0} where
  -- `map` makes the combined stream of a stream of either kind.
  unfoldable pub on_connection :
      {T : Type 0}
      → Connection T
      → (T → CombinedStream T₁ T₂)
      → CombinedTransport S₁ S₂
      → Option (IoResult (Connection (CombinedStream T₁ T₂))) × CombinedTransport S₁ S₂
  unfolding into_parts connection
  on_connection conn map s =
      let (stream, peer_addr, is_initiator, protocol) = into_parts conn in
      let taken = some (ok (connection (map stream) peer_addr is_initiator protocol)) in
      if not is_initiator
      then (taken, s)
      else if not (contains s.connected peer_addr)
      then (taken, record s { connected = insert s.connected peer_addr })
      else (none, s)

  unfoldable pub on_poll_connection :
      {T : Type 0}
      → Next (Connection T)
      → (T → CombinedStream T₁ T₂)
      → CombinedTransport S₁ S₂
      → Option (IoResult (Connection (CombinedStream T₁ T₂))) × CombinedTransport S₁ S₂
  unfolding on_connection
  on_poll_connection pending map s = (none, s)
  on_poll_connection (ready none) map s = (none, s)
  on_poll_connection (ready (some (err e))) map s = (some (err e), s)
  on_poll_connection (ready (some (ok conn))) map s = on_connection conn map s

-- `if let Some(res) = … { return Poll::Ready(Some(res)); }`, and what follows it.
unfoldable pub answer :
    {R S : Type 0}
    → Option R × S
    → (S → Outcome (Poll (Option R) × S))
    → Outcome (Poll (Option R) × S)
answer (some res, s) k = returns (ready (some res), s)
answer (none, s) k = k s

module _ {S₁ S₂ T₁ T₂ : Type 0} (tcp_part : Transport S₁ T₁) (utp_part : Transport S₂ T₂) where
  unfoldable pub connect : SocketAddr → CombinedTransport S₁ S₂ → CombinedTransport S₁ S₂
  connect peer_addr s = record s {
    tcp = tcp_part.connect peer_addr s.tcp;
    utp = utp_part.connect peer_addr s.utp;
  }

  -- The second half of `poll_next`.
  unfoldable pub poll_utp :
      CombinedTransport S₁ S₂
      → Outcome (Next (Connection (CombinedStream T₁ T₂)) × CombinedTransport S₁ S₂)
  unfolding on_poll_connection answer
  poll_utp s = Outcomes.◌>>=◌ (utp_part.poll_next s.utp) λ (utp_next, utp').
      answer (on_poll_connection utp_next CombinedStream.utp (record s { utp = utp' }))
        λ s'. returns (pending, s')

  unfoldable pub poll_next :
      CombinedTransport S₁ S₂
      → Outcome (Next (Connection (CombinedStream T₁ T₂)) × CombinedTransport S₁ S₂)
  unfolding on_poll_connection answer poll_utp
  poll_next s = Outcomes.◌>>=◌ (tcp_part.poll_next s.tcp) λ (tcp_next, tcp').
      answer (on_poll_connection tcp_next CombinedStream.tcp (record s { tcp = tcp' })) poll_utp

  abbrev pub combined_transport : Transport (CombinedTransport S₁ S₂) (CombinedStream T₁ T₂)
  combined_transport = record { connect = connect; poll_next = poll_next }
