-- ===== src/Transport/Total.antt =====
-- src/transport: when the polls of the transports return.
use hyperswarm_rs.Prelude.{
  ◌≡◌, refl, Bool, true, false, Option, none, some, IoResult, ok, err, Poll, pending, ready, Next,
  Outcome, returns, arith,
}
use hyperswarm_rs.Prelude.Outcomes.{returns->>=}
use hyperswarm_rs.Net.{SocketAddr}
use hyperswarm_rs.Transport.{Connection, connection, Transport}
use hyperswarm_rs.Transport.Sources.{poll_opening, poll_sources}
use hyperswarm_rs.Transport.Tcp.{Tcp, TcpTransport, tcp_transport}
use hyperswarm_rs.Transport.Tcp as OverTcp
use hyperswarm_rs.Transport.Utp.{Utp, UtpTransport, UtpStream, utp_transport}
use hyperswarm_rs.Transport.Utp as OverUtp
use hyperswarm_rs.Transport.Combined.{
  CombinedTransport, CombinedStream, answer, on_poll_connection, poll_utp, poll_next,
  combined_transport,
}

-- It returns.
abbrev pub Returns : {A : Type 0} → Outcome A → Type 0
Returns {A} result = (a : A) × (result ≡ returns a)

-- Every poll returns, in any state.
abbrev pub PollsReturn : {S T : Type 0} → Transport S T → Type 0
PollsReturn {S} t = (s : S) → Returns (t.poll_next s)

module _ {X T I U : Type 0}
    (into_connection : Next X → Bool → Outcome (Option (IoResult (Connection T))))
    (poll_incoming : I → Next X × I) (poll_connects : U → Next X × U)
    (makes : (next : Next X) (is_initiator : Bool)
      → Returns (into_connection next is_initiator)) where
  last :
      (found : Option (IoResult (Connection T))) (i : I) (u : U)
      → Returns (elim found as (λ _. Outcome (Next (Connection T) × I × U)) [
        | some conn ↦ returns (ready (some conn), i, u)
        | none ↦ returns (pending, i, u)
      ])
  last none i u = (_, refl)
  last (some conn) i u = (_, refl)

  poll_opening-Returns :
      (i : I) (u : U) → Returns (poll_opening into_connection poll_incoming poll_connects i u)
  unfolding poll_opening
  poll_opening-Returns i u =
      let (found, e) = makes (poll_connects u).0 true in
      returns->>= (into_connection (poll_connects u).0 true) _ e (last found i (poll_connects u).1)

  first :
      (found : Option (IoResult (Connection T))) (i : I) (u : U)
      → Returns (elim found as (λ _. Outcome (Next (Connection T) × I × U)) [
        | some conn ↦ returns (ready (some conn), i, u)
        | none ↦ poll_opening into_connection poll_incoming poll_connects i u
      ])
  first none i u = poll_opening-Returns i u
  first (some conn) i u = (_, refl)

  pub poll_sources-Returns :
      (i : I) (u : U) → Returns (poll_sources into_connection poll_incoming poll_connects i u)
  unfolding poll_sources
  poll_sources-Returns i u =
      let (found, e) = makes (poll_incoming i).0 false in
      returns->>= (into_connection (poll_incoming i).0 false) _ e
        (first found (poll_incoming i).1 u)

module _ {T L F C U : Type 0} (tcp : Tcp T L F C U)
    (connected : (stream : T) → (addr : SocketAddr) × (tcp.peer_addr stream ≡ ok addr)) where
  tcp_makes :
      (next : Next T) (is_initiator : Bool)
      → Returns (OverTcp.into_connection tcp next is_initiator)
  unfolding OverTcp.into_connection
  tcp_makes pending is_initiator = (_, refl)
  tcp_makes (ready none) is_initiator = (_, refl)
  tcp_makes (ready (some (err e))) is_initiator = (_, refl)
  tcp_makes (ready (some (ok stream))) is_initiator =
      let (addr, e) = connected stream in
      (some (ok (connection stream addr is_initiator "tcp")), ground arith)

  pub tcp-PollsReturn : PollsReturn (tcp_transport tcp)
  unfolding OverTcp.poll_next
  tcp-PollsReturn s =
      let (r, e) =
        poll_sources-Returns (OverTcp.into_connection tcp) (OverTcp.poll_incoming tcp)
          tcp.connects.poll_next tcp_makes s.incoming s.pending_connects in
      returns->>=
        (poll_sources (OverTcp.into_connection tcp) (OverTcp.poll_incoming tcp)
          tcp.connects.poll_next s.incoming s.pending_connects)
        _ e (_, refl)

module _ {T X L C U : Type 0} (utp : Utp T X L C U) where
  utp_makes :
      (next : Next T) (is_initiator : Bool)
      → Returns (OverUtp.into_connection utp next is_initiator)
  unfolding OverUtp.into_connection
  utp_makes pending is_initiator = (_, refl)
  utp_makes (ready none) is_initiator = (_, refl)
  utp_makes (ready (some (err e))) is_initiator = (_, refl)
  utp_makes (ready (some (ok socket))) is_initiator = (_, refl)

  pub utp-PollsReturn : PollsReturn (utp_transport utp)
  unfolding OverUtp.poll_next
  utp-PollsReturn s =
      let (r, e) =
        poll_sources-Returns (OverUtp.into_connection utp) utp.poll_listener utp.connects.poll_next
          utp_makes s.incoming s.pending_connects in
      returns->>=
        (poll_sources (OverUtp.into_connection utp) utp.poll_listener utp.connects.poll_next
          s.incoming s.pending_connects)
        _ e (_, refl)

answer-Returns :
    {R S : Type 0} (found : Option R) (s : S) (k : S → Outcome (Poll (Option R) × S))
    → ((u : S) → Returns (k u))
    → Returns (answer (found, s) k)
unfolding answer
answer-Returns none s k h = h s
answer-Returns (some res) s k h = (_, refl)

module _ {S₁ S₂ T₁ T₂ : Type 0} (tcp_part : Transport S₁ T₁) (utp_part : Transport S₂ T₂)
    (tcp_returns : PollsReturn tcp_part) (utp_returns : PollsReturn utp_part) where
  poll_utp-Returns : (s : CombinedTransport S₁ S₂) → Returns (poll_utp tcp_part utp_part s)
  unfolding poll_utp
  poll_utp-Returns s =
      let (r, e) = utp_returns s.utp in
      let found = on_poll_connection {T₁ = T₁} r.0 CombinedStream.utp (record s { utp = r.1 }) in
      returns->>= (utp_part.poll_next s.utp) _ e (answer-Returns found.0 found.1 _ (λ u. (_, refl)))

  pub combined-PollsReturn : PollsReturn (combined_transport tcp_part utp_part)
  unfolding poll_next
  combined-PollsReturn s =
      let (r, e) = tcp_returns s.tcp in
      let found = on_poll_connection {T₂ = T₂} r.0 CombinedStream.tcp (record s { tcp = r.1 }) in
      returns->>= (tcp_part.poll_next s.tcp) _ e (answer-Returns found.0 found.1 _ poll_utp-Returns)
