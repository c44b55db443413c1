-- ===== src/Transport/Combined/Lossless.antt =====
-- src/transport/combined.rs: the connections handed out beside those of the parts.
use mathlib.Core.List.{Nodup, Nodup-nil}
use hyperswarm_rs.Prelude.{
  ◌≡◌, refl, Option, List, [], ◌∷◌, ◌++◌, append-nil, append_assoc, IoResult, ok, Next, returns,
  arith,
}
use hyperswarm_rs.Prelude.Outcomes.{>>=-eq-returns, subst_returns}
use hyperswarm_rs.Net.{SocketAddr}
use hyperswarm_rs.Transport.{Connection, Transport}
use hyperswarm_rs.Transport.Calls.{Call, connects, polls, initiated, initiated_all, run}
use hyperswarm_rs.Transport.Recording.{Recorded, recording}
use hyperswarm_rs.Transport.Combined.{CombinedStream, bind, connect, poll_next, combined_transport}
use hyperswarm_rs.Transport.Combined.Dedup.{Opens, poll_next-Opens}
use hyperswarm_rs.Transport.Combined.Ledger.{
  incoming_all, over_tcp, over_utp, all_over, incoming_all-append, initiated_all-append,
  all_over-append, Within, Within-append, Within-more,
}
use hyperswarm_rs.Transport.Combined.Passes.{Watched, Passes, poll_next-Passes}

module _ {S₁ S₂ T₁ T₂ : Type 0} where
  -- The books of a combined transport whose polls have handed out the results `out`.
  pub record Lossless (out : List (Next (Connection (CombinedStream T₁ T₂))))
      (s : Watched S₁ T₁ S₂ T₂) : Type 0 where
    pub opened : s.connected ≡ initiated_all out
    pub distinct : Nodup s.connected
    pub tcp_in : all_over over_tcp (incoming_all out) ≡ incoming_all s.tcp.results
    pub utp_in : all_over over_utp (incoming_all out) ≡ incoming_all s.utp.results
    pub tcp_known : Within (initiated_all s.tcp.results) (initiated_all out)
    pub utp_known : Within (initiated_all s.utp.results) (initiated_all out)

module _ {S₁ S₂ T₁ T₂ : Type 0} (tcp_part : Transport S₁ T₁) (utp_part : Transport S₂ T₂) where
  Passes-Lossless :
      (out : List (Next (Connection (CombinedStream T₁ T₂)))) (s : Watched S₁ T₁ S₂ T₂)
      (got₁ : List (Next (Connection T₁))) (got₂ : List (Next (Connection T₂)))
      (result : Next (Connection (CombinedStream T₁ T₂))) (s' : Watched S₁ T₁ S₂ T₂)
      → Lossless out s
      → Passes s got₁ got₂ result s'
      → Opens s.connected (initiated result) s'.connected
      → Lossless (out ++ result ∷ []) s'
  Passes-Lossless out s got₁ got₂ result s' l p (same, distinct) =
      let opened : s'.connected ≡ initiated_all (out ++ result ∷ []) =
        simp (same, l.opened, initiated_all-append, append-nil) in
      let kept : Within (initiated_all out) (initiated_all (out ++ result ∷ [])) =
        rw (initiated_all-append out (result ∷ [])) (Within-more (initiated_all out) _) in
      record {
        opened = opened;
        distinct = distinct l.distinct;
        tcp_in =
            simp
              (incoming_all-append, all_over-append, append-nil, l.tcp_in, p.tcp_in, p.tcp_results);
        utp_in =
            simp
              (incoming_all-append, all_over-append, append-nil, l.utp_in, p.utp_in, p.utp_results);
        tcp_known =
            rw (p.tcp_results, initiated_all-append s.tcp.results got₁)
              (Within-append (initiated_all s.tcp.results) (initiated_all got₁) (initiated_all out)
                _ l.tcp_known kept (rw opened at p.tcp_known));
        utp_known =
            rw (p.utp_results, initiated_all-append s.utp.results got₂)
              (Within-append (initiated_all s.utp.results) (initiated_all got₂) (initiated_all out)
                _ l.utp_known kept (rw opened at p.utp_known));
      }

  run-Lossless :
      (calls : List Call) (out : List (Next (Connection (CombinedStream T₁ T₂))))
      (s : Watched S₁ T₁ S₂ T₂) {results : List (Next (Connection (CombinedStream T₁ T₂)))}
      {s' : Watched S₁ T₁ S₂ T₂}
      → Lossless out s
      → run (combined_transport (recording tcp_part) (recording utp_part)) calls s
        ≡ returns (results, s')
      → Lossless (out ++ results) s'
  unfolding run connect
  run-Lossless [] out s l e = subst_returns (λ r u. Lossless (out ++ r) u) e (rw append-nil l)
  run-Lossless (connects addr ∷ calls) out s l e =
      run-Lossless calls out (connect (recording tcp_part) (recording utp_part) addr s)
        (record {
          opened = l.opened;
          distinct = l.distinct;
          tcp_in = l.tcp_in;
          utp_in = l.utp_in;
          tcp_known = l.tcp_known;
          utp_known = l.utp_known;
        })
        e
  run-Lossless (polls ∷ calls) out s l e =
      let p = >>=-eq-returns (poll_next (recording tcp_part) (recording utp_part) s) _ e in
      let q =
        >>=-eq-returns
          (run (combined_transport (recording tcp_part) (recording utp_part)) calls p.0.1) _ p.2 in
      let (got₁, got₂, passes) = poll_next-Passes tcp_part utp_part s p.1 in
      let l' =
        Passes-Lossless out s got₁ got₂ p.0.0 p.0.1 l passes
          (poll_next-Opens (recording tcp_part) (recording utp_part) s p.1) in
      subst_returns (λ r u. Lossless (out ++ r) u) q.2
        (simp append_assoc at (run-Lossless calls (out ++ p.0.0 ∷ []) p.0.1 l' q.1))

  -- For any two transports, each wrapped so that it keeps a record of its results, a combined
  -- transport that `bind` has just made of them and any sequence of calls that runs to its end: the
  -- connections that peers opened and that the polls handed out are, of each kind of stream, those
  -- that the part of that kind gave, none missing and in order; the peer of every connection that
  -- either part opened is the peer of one that the polls handed out; and those peers are distinct,
  -- and are what `connected` holds.
  pub bind-Lossless :
      (bind_tcp : SocketAddr → S₁) (tcp_addr : Recorded S₁ T₁ → SocketAddr)
      (bind_utp : SocketAddr → S₂) (addr : Option (IoResult (List SocketAddr))) (calls : List Call)
      {s : Watched S₁ T₁ S₂ T₂} {results : List (Next (Connection (CombinedStream T₁ T₂)))}
      {s' : Watched S₁ T₁ S₂ T₂}
      → bind
          (λ wanted. returns (ok (record { inner = bind_tcp wanted; dialled = []; results = [] })))
          tcp_addr
          (λ local. returns (ok (record { inner = bind_utp local; dialled = []; results = [] })))
          addr
        ≡ returns (ok s)
      → run (combined_transport (recording tcp_part) (recording utp_part)) calls s
        ≡ returns (results, s')
      → Lossless results s'
  unfolding bind
  bind-Lossless bind_tcp tcp_addr bind_utp addr calls {s} b e =
      let empty : (s.connected ≡ []) × (s.tcp.results ≡ []) × (s.utp.results ≡ []) = ground arith in
      run-Lossless calls [] s
        (record {
          opened = empty.0;
          distinct = rw empty.0 Nodup-nil;
          tcp_in = rw empty.1 refl;
          utp_in = rw empty.2 refl;
          tcp_known = rw empty.1 (λ addr f. f);
          utp_known = rw empty.2 (λ addr f. f);
        })
        e
