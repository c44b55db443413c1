-- ===== src/Transport/Stream/Agreement.antt =====
-- src/transport: the labels of the connections of a combined transport over TCP and uTP.
use hyperswarm_rs.Prelude.{
  ◌≡◌, none, some, List, [], ◌∷◌, ok, err, pending, ready, Next, returns, arith, All,
}
use hyperswarm_rs.Prelude.Outcomes.{>>=-eq-returns, subst_returns}
use hyperswarm_rs.Transport.{Connection}
use hyperswarm_rs.Transport.Calls.{Call, connects, polls, run}
use hyperswarm_rs.Transport.Tcp.{Tcp, TcpTransport, tcp_transport}
use hyperswarm_rs.Transport.Utp.{Utp, UtpTransport, UtpStream, utp_transport}
use hyperswarm_rs.Transport.Combined.{
  CombinedTransport, CombinedStream, on_poll_connection, connect, poll_utp, poll_next,
  combined_transport,
}
use hyperswarm_rs.Transport.Stream.{protocol, peer_addr}
use hyperswarm_rs.Transport.Stream.Labels.{
  Handed, IsTcp, IsUtp, tcp_Handed, utp_Handed, Either, tcp-Accepted, utp-Accepted, answer-Handed,
}

module _ {T₁ L F C U T₂ X L' C' U' : Type 0} (tcp : Tcp T₁ L F C U) (utp : Utp T₂ X L' C' U') where
  -- What a connection says of its protocol and its peer is what its stream says.
  abbrev pub Agrees : Connection (CombinedStream T₁ (UtpStream T₂)) → Type 0
  Agrees conn =
      (protocol conn.inner ≡ conn.protocol)
      × (peer_addr tcp utp conn.inner ≡ returns conn.peer_addr)

  Either-Agrees :
      (conn : Connection (CombinedStream T₁ (UtpStream T₂)))
      → Either (IsTcp tcp) (IsUtp utp) conn
      → Agrees conn
  unfolding protocol peer_addr
  Either-Agrees conn h = ground arith

  Handed-Agrees :
      (result : Next (Connection (CombinedStream T₁ (UtpStream T₂))))
      → Handed (Either (IsTcp tcp) (IsUtp utp)) result
      → Handed Agrees result
  Handed-Agrees pending h = tt
  Handed-Agrees (ready none) h = tt
  Handed-Agrees (ready (some (err e))) h = tt
  Handed-Agrees (ready (some (ok conn))) h = Either-Agrees conn h

  abbrev State : Type 0
  State = CombinedTransport (TcpTransport F U) (UtpTransport X L' U')

  poll_utp-Handed :
      (s : State) {result : Next (Connection (CombinedStream T₁ (UtpStream T₂)))} {s' : State}
      → poll_utp (tcp_transport tcp) (utp_transport utp) s ≡ returns (result, s')
      → Handed (Either (IsTcp tcp) (IsUtp utp)) result
  unfolding poll_utp
  poll_utp-Handed s e =
      let p = >>=-eq-returns ((utp_transport utp).poll_next s.utp) _ e in
      let t : State = record s { utp = p.0.1 } in
      let r = on_poll_connection p.0.0 CombinedStream.utp t in
      answer-Handed (IsTcp tcp) (IsUtp utp) r.0 r.1 _
        (utp-Accepted (IsTcp tcp) (IsUtp utp) p.0.0 t (utp_Handed utp s.utp p.1))
        (λ d. subst_returns (λ x u. Handed (Either (IsTcp tcp) (IsUtp utp)) x) d tt) p.2

  poll_next-Handed :
      (s : State) {result : Next (Connection (CombinedStream T₁ (UtpStream T₂)))} {s' : State}
      → poll_next (tcp_transport tcp) (utp_transport utp) s ≡ returns (result, s')
      → Handed (Either (IsTcp tcp) (IsUtp utp)) result
  unfolding poll_next
  poll_next-Handed s e =
      let p = >>=-eq-returns ((tcp_transport tcp).poll_next s.tcp) _ e in
      let t : State = record s { tcp = p.0.1 } in
      let r = on_poll_connection p.0.0 CombinedStream.tcp t in
      answer-Handed (IsTcp tcp) (IsUtp utp) r.0 r.1 _
        (tcp-Accepted (IsTcp tcp) (IsUtp utp) p.0.0 t (tcp_Handed tcp s.tcp p.1))
        (poll_utp-Handed r.1) p.2

  -- For any TCP and uTP sockets and any sequence of calls that runs to its end on the combined
  -- transport over both: every connection that a poll hands out says of its protocol and of its
  -- peer's address what its stream says of them.
  pub run-Agrees :
      (calls : List Call) (s : State)
      {results : List (Next (Connection (CombinedStream T₁ (UtpStream T₂))))} {s' : State}
      → run (combined_transport (tcp_transport tcp) (utp_transport utp)) calls s
        ≡ returns (results, s')
      → All (Handed Agrees) results
  unfolding run connect
  run-Agrees [] s e = subst_returns (λ r u. All (Handed Agrees) r) e tt
  run-Agrees (connects addr ∷ calls) s e =
      run-Agrees calls (connect (tcp_transport tcp) (utp_transport utp) addr s) e
  run-Agrees (polls ∷ calls) s e =
      let p = >>=-eq-returns (poll_next (tcp_transport tcp) (utp_transport utp) s) _ e in
      let q =
        >>=-eq-returns
          (run (combined_transport (tcp_transport tcp) (utp_transport utp)) calls p.0.1) _ p.2 in
      subst_returns (λ r u. All (Handed Agrees) r) q.2
        (Handed-Agrees p.0.0 (poll_next-Handed s p.1), run-Agrees calls p.0.1 q.1)
