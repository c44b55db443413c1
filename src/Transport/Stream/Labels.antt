-- ===== src/Transport/Stream/Labels.antt =====
-- src/transport: what a connection says of itself beside what its stream says.
use hyperswarm_rs.Prelude.{
  ◌≡◌, sym, subst, Bool, true, false, Option, none, some, IoResult, ok, err, pending, ready, Next,
  Outcome, returns, arith, not, if◌then◌else◌,
}
use hyperswarm_rs.Prelude.Outcomes.{>>=-eq-returns, subst_returns}
use hyperswarm_rs.Transport.{Connection, connection, into_parts}
use hyperswarm_rs.Transport.Sources.{poll_sources}
use hyperswarm_rs.Transport.Sources.Cases.{Polled, came_in, opened, neither, poll_sources-Polled}
use hyperswarm_rs.Transport.Tcp.{Tcp, TcpTransport, tcp_transport}
use hyperswarm_rs.Transport.Tcp as OverTcp
use hyperswarm_rs.Transport.Utp.{Utp, UtpTransport, UtpStream, stream_peer_addr, utp_transport}
use hyperswarm_rs.Transport.Utp as OverUtp
use hyperswarm_rs.Transport.Combined.{
  CombinedTransport, CombinedStream, on_connection, contains, on_poll_connection, answer,
}

-- The result, if it is a connection, has the property.
abbrev pub Handed : {T : Type 0} → (Connection T → Type 0) → Next (Connection T) → Type 0
Handed P (ready (some (ok conn))) = P conn
Handed P _ = Unit

module _ {T X I U : Type 0} (P : Connection T → Type 0)
    (into_connection : Next X → Bool → Outcome (Option (IoResult (Connection T))))
    (poll_incoming : I → Next X × I) (poll_connects : U → Next X × U)
    (made : (next : Next X) (is_initiator : Bool) (conn : IoResult (Connection T))
      → into_connection next is_initiator ≡ returns (some conn)
      → Handed P (ready (some conn))) where
  Polled-Handed :
      (i : I) (u : U) {result : Next (Connection T)} {i' : I} {u' : U}
      → Polled into_connection poll_incoming poll_connects i u result i' u'
      → Handed P result
  Polled-Handed i u (came_in conn e r _) = subst (Handed P) (sym r) (made _ _ conn e)
  Polled-Handed i u (opened conn e r _) = subst (Handed P) (sym r) (made _ _ conn e)
  Polled-Handed i u (neither e r _) = subst (Handed P) (sym r) tt

module _ {T₁ L F C U : Type 0} (tcp : Tcp T₁ L F C U) where
  -- The stream's peer is the connection's.
  abbrev pub IsTcp : Connection T₁ → Type 0
  IsTcp conn = (tcp.peer_addr conn.inner ≡ ok conn.peer_addr) × (conn.protocol ≡ "tcp")

  tcp_made :
      (next : Next T₁) (is_initiator : Bool) (conn : IoResult (Connection T₁))
      → OverTcp.into_connection tcp next is_initiator ≡ returns (some conn)
      → Handed IsTcp (ready (some conn))
  unfolding OverTcp.into_connection connection
  tcp_made next is_initiator (err e) h = tt
  tcp_made pending is_initiator (ok conn) h = cc
  tcp_made (ready none) is_initiator (ok conn) h = cc
  tcp_made (ready (some (err e))) is_initiator (ok conn) h = cc
  tcp_made (ready (some (ok stream))) is_initiator (ok conn) h = ground arith

  pub tcp_Handed :
      (s : TcpTransport F U) {result : Next (Connection T₁)} {s' : TcpTransport F U}
      → OverTcp.poll_next tcp s ≡ returns (result, s')
      → Handed IsTcp result
  unfolding OverTcp.poll_next
  tcp_Handed s e =
      let p =
        >>=-eq-returns
          (poll_sources (OverTcp.into_connection tcp) (OverTcp.poll_incoming tcp)
            tcp.connects.poll_next s.incoming s.pending_connects)
          _ e in
      subst_returns (λ r u. Handed IsTcp r) p.2
        (Polled-Handed IsTcp (OverTcp.into_connection tcp) (OverTcp.poll_incoming tcp)
          tcp.connects.poll_next tcp_made s.incoming s.pending_connects
          (poll_sources-Polled (OverTcp.into_connection tcp) (OverTcp.poll_incoming tcp)
            tcp.connects.poll_next s.incoming s.pending_connects p.1))

module _ {T₂ X L C U : Type 0} (utp : Utp T₂ X L C U) where
  abbrev pub IsUtp : Connection (UtpStream T₂) → Type 0
  IsUtp conn = (stream_peer_addr utp conn.inner ≡ conn.peer_addr) × (conn.protocol ≡ "utp")

  utp_made :
      (next : Next T₂) (is_initiator : Bool) (conn : IoResult (Connection (UtpStream T₂)))
      → OverUtp.into_connection utp next is_initiator ≡ returns (some conn)
      → Handed IsUtp (ready (some conn))
  unfolding OverUtp.into_connection connection
  utp_made next is_initiator (err e) h = tt
  utp_made pending is_initiator (ok conn) h = cc
  utp_made (ready none) is_initiator (ok conn) h = cc
  utp_made (ready (some (err e))) is_initiator (ok conn) h = cc
  utp_made (ready (some (ok stream))) is_initiator (ok conn) h = ground arith

  pub utp_Handed :
      (s : UtpTransport X L U) {result : Next (Connection (UtpStream T₂))} {s' : UtpTransport X L U}
      → OverUtp.poll_next utp s ≡ returns (result, s')
      → Handed IsUtp result
  unfolding OverUtp.poll_next
  utp_Handed s e =
      let p =
        >>=-eq-returns
          (poll_sources (OverUtp.into_connection utp) utp.poll_listener utp.connects.poll_next
            s.incoming s.pending_connects)
          _ e in
      subst_returns (λ r u. Handed IsUtp r) p.2
        (Polled-Handed IsUtp (OverUtp.into_connection utp) utp.poll_listener utp.connects.poll_next
          utp_made s.incoming s.pending_connects
          (poll_sources-Polled (OverUtp.into_connection utp) utp.poll_listener
            utp.connects.poll_next s.incoming s.pending_connects p.1))

module _ {T₁ T₂ : Type 0} (P₁ : Connection T₁ → Type 0) (P₂ : Connection T₂ → Type 0) where
  -- The property of the kind of the stream.
  abbrev pub Either : Connection (CombinedStream T₁ T₂) → Type 0
  Either conn = elim conn.inner [
    | CombinedStream.tcp stream ↦ P₁ (record {
      inner = stream;
      peer_addr = conn.peer_addr;
      is_initiator = conn.is_initiator;
      protocol = conn.protocol;
    })
    | CombinedStream.utp stream ↦ P₂ (record {
      inner = stream;
      peer_addr = conn.peer_addr;
      is_initiator = conn.is_initiator;
      protocol = conn.protocol;
    })
  ]

  -- Of what `on_poll_connection` accepts.
  abbrev pub Accepted : Option (IoResult (Connection (CombinedStream T₁ T₂))) → Type 0
  Accepted none = Unit
  Accepted (some res) = Handed Either (ready (some res))

  module _ {S₁ S₂ : Type 0} where
    Accepted-branch :
        (b b' : Bool) (taken : Option (IoResult (Connection (CombinedStream T₁ T₂))))
        (s t : CombinedTransport S₁ S₂)
        → Accepted taken
        → let r : Option (IoResult (Connection (CombinedStream T₁ T₂))) × CombinedTransport S₁ S₂ =
            if not b then (taken, s) else if not b' then (taken, t) else (none, s) in
          Accepted r.0
    Accepted-branch false b' taken s t h = h
    Accepted-branch true false taken s t h = h
    Accepted-branch true true taken s t h = tt

    Accepted-conn :
        {T : Type 0} (map : T → CombinedStream T₁ T₂) (conn : Connection T)
        (s : CombinedTransport S₁ S₂)
        → Either (connection (map conn.inner) conn.peer_addr conn.is_initiator conn.protocol)
        → Accepted (on_connection conn map s).0
    unfolding on_connection into_parts
    Accepted-conn map conn s h =
        Accepted-branch conn.is_initiator (contains s.connected conn.peer_addr) _ s _ h

    pub tcp-Accepted :
        (next : Next (Connection T₁)) (s : CombinedTransport S₁ S₂)
        → Handed P₁ next
        → Accepted (on_poll_connection next CombinedStream.tcp s).0
    unfolding on_poll_connection connection
    tcp-Accepted pending s h = tt
    tcp-Accepted (ready none) s h = tt
    tcp-Accepted (ready (some (err e))) s h = tt
    tcp-Accepted (ready (some (ok conn))) s h = Accepted-conn CombinedStream.tcp conn s h

    pub utp-Accepted :
        (next : Next (Connection T₂)) (s : CombinedTransport S₁ S₂)
        → Handed P₂ next
        → Accepted (on_poll_connection next CombinedStream.utp s).0
    unfolding on_poll_connection connection
    utp-Accepted pending s h = tt
    utp-Accepted (ready none) s h = tt
    utp-Accepted (ready (some (err e))) s h = tt
    utp-Accepted (ready (some (ok conn))) s h = Accepted-conn CombinedStream.utp conn s h

    pub answer-Handed :
        (found : Option (IoResult (Connection (CombinedStream T₁ T₂))))
        (s : CombinedTransport S₁ S₂)
        (k : CombinedTransport S₁ S₂
          → Outcome (Next (Connection (CombinedStream T₁ T₂)) × CombinedTransport S₁ S₂))
        {result : Next (Connection (CombinedStream T₁ T₂))} {s' : CombinedTransport S₁ S₂}
        → Accepted found
        → (k s ≡ returns (result, s') → Handed Either result)
        → answer (found, s) k ≡ returns (result, s')
        → Handed Either result
    unfolding answer
    answer-Handed none s k a next e = next e
    answer-Handed (some res) s k a next e = subst_returns (λ r u. Handed Either r) e a
