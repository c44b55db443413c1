-- ===== src/Transport/Combined/Passes.antt =====
-- src/transport/combined.rs: what one poll makes of the results of the parts.

use hyperswarm_rs.Prelude.{
  ◌≡◌, refl, sym, ap, ◌∙◌, Option, none, some, List, [], ◌∷◌, ◌++◌, append-nil, IoResult, ok, err,
  pending, ready, Next, returns, arith,
}
use hyperswarm_rs.Prelude.Outcomes.{>>=-eq-returns, subst_returns}
use hyperswarm_rs.Transport.{Connection, Transport}
use hyperswarm_rs.Transport.Calls.{initiated, initiated_all}
use hyperswarm_rs.Transport.Recording.{Recorded, recording, poll_next-recorded}
use hyperswarm_rs.Transport.Combined.{
  CombinedTransport, CombinedStream, answer, on_poll_connection, poll_utp, poll_next,
}
use hyperswarm_rs.Transport.Combined.Ledger.{
  incoming, incoming_all, over_tcp, over_utp, all_over, result_of, Within, Within-more,
  tcp_incoming, utp_incoming, initiated_known,
}

-- The combined transport over parts that keep records.
abbrev pub Watched : Type 0 → Type 0 → Type 0 → Type 0 → Type 0
Watched S₁ T₁ S₂ T₂ = CombinedTransport (Recorded S₁ T₁) (Recorded S₂ T₂)

-- What a result accepts, by the kind of its stream.
abbrev pub tcp_of :
    {T₁ T₂ : Type 0} → Next (Connection (CombinedStream T₁ T₂)) → List (Connection T₁)
tcp_of result = all_over over_tcp (incoming result)

abbrev pub utp_of :
    {T₁ T₂ : Type 0} → Next (Connection (CombinedStream T₁ T₂)) → List (Connection T₂)
utp_of result = all_over over_utp (incoming result)

module _ {S₁ S₂ T₁ T₂ : Type 0} where
  -- A poll in which the parts gave the results `got₁` and `got₂`.
  pub record Passes (s : Watched S₁ T₁ S₂ T₂) (got₁ : List (Next (Connection T₁)))
      (got₂ : List (Next (Connection T₂))) (result : Next (Connection (CombinedStream T₁ T₂)))
      (s' : Watched S₁ T₁ S₂ T₂) : Type 0 where
    pub tcp_results : s'.tcp.results ≡ s.tcp.results ++ got₁
    pub utp_results : s'.utp.results ≡ s.utp.results ++ got₂
    pub tcp_in : tcp_of result ≡ incoming_all got₁
    pub utp_in : utp_of result ≡ incoming_all got₂
    pub tcp_known : Within (initiated_all got₁) s'.connected
    pub utp_known : Within (initiated_all got₂) s'.connected
    pub kept : Within s.connected s'.connected

  on_poll_connection-kept :
      {T : Type 0} (map : T → CombinedStream T₁ T₂) (next : Next (Connection T))
      (s : Watched S₁ T₁ S₂ T₂)
      → Within s.connected (on_poll_connection next map s).1.connected
  unfolding on_poll_connection
  on_poll_connection-kept map pending s addr e = e
  on_poll_connection-kept map (ready none) s addr e = e
  on_poll_connection-kept map (ready (some (err x))) s addr e = e
  on_poll_connection-kept map (ready (some (ok conn))) s addr e =
      ground (arith, Within-more s.connected (conn.peer_addr ∷ []) addr)

  answer_last :
      (found : Option (IoResult (Connection (CombinedStream T₁ T₂)))) (s : Watched S₁ T₁ S₂ T₂)
      → answer (found, s) (λ s'. returns (pending, s')) ≡ returns (result_of found, s)
  unfolding answer
  answer_last none s = refl
  answer_last (some res) s = refl

module _ {S₁ S₂ T₁ T₂ : Type 0} (tcp_part : Transport S₁ T₁) (utp_part : Transport S₂ T₂) where
  poll_utp-Passes :
      (s : Watched S₁ T₁ S₂ T₂) {result : Next (Connection (CombinedStream T₁ T₂))}
      {s' : Watched S₁ T₁ S₂ T₂}
      → poll_utp (recording tcp_part) (recording utp_part) s ≡ returns (result, s')
      → (got₂ : List (Next (Connection T₂))) × Passes s [] got₂ result s'
  unfolding poll_utp
  poll_utp-Passes s e =
      let p = >>=-eq-returns ((recording utp_part).poll_next s.utp) _ e in
      let next = p.0.0 in
      let t : Watched S₁ T₁ S₂ T₂ = record s { utp = p.0.1 } in
      let r = on_poll_connection next CombinedStream.utp t in
      let (tcp_in, utp_in, same, same') = utp_incoming {T₁ = T₁} next t in
      let recorded = poll_next-recorded utp_part s.utp p.1 in
      (
        next ∷ [],
        subst_returns (λ x u. Passes s [] (next ∷ []) x u) (sym (answer_last r.0 r.1) ∙ p.2)
            (record {
              tcp_results = rw append-nil (ap (λ (x : Recorded S₁ T₁). x.results) same);
              utp_results = ap (λ (x : Recorded S₂ T₂). x.results) same' ∙ recorded.1;
              tcp_in = tcp_in;
              utp_in = rw append-nil utp_in;
              tcp_known = λ addr f. cc;
              utp_known =
                  λ addr f. initiated_known CombinedStream.utp next t addr (rw append-nil at f);
              kept = on_poll_connection-kept CombinedStream.utp next t;
            }),
      )

  -- What the first half of a poll of `s`, in which TCP gave `next`, leads to.
  record First (s : Watched S₁ T₁ S₂ T₂) (next : Next (Connection T₁))
      (found : Option (IoResult (Connection (CombinedStream T₁ T₂)))) (u : Watched S₁ T₁ S₂ T₂)
      : Type 0 where
    tcp_results : u.tcp.results ≡ s.tcp.results ++ next ∷ []
    utp_results : u.utp.results ≡ s.utp.results
    tcp_in : tcp_of (result_of found) ≡ incoming next
    utp_in : utp_of (result_of found) ≡ []
    known : Within (initiated next) u.connected
    kept : Within s.connected u.connected

  after_tcp :
      (s : Watched S₁ T₁ S₂ T₂) (next : Next (Connection T₁))
      (found : Option (IoResult (Connection (CombinedStream T₁ T₂)))) (u : Watched S₁ T₁ S₂ T₂)
      {result : Next (Connection (CombinedStream T₁ T₂))} {s' : Watched S₁ T₁ S₂ T₂}
      → First s next found u
      → answer (found, u) (poll_utp (recording tcp_part) (recording utp_part))
        ≡ returns (result, s')
      → (got₂ : List (Next (Connection T₂))) × Passes s (next ∷ []) got₂ result s'
  unfolding answer
  after_tcp s next (some res) u f e = (
    [],
    subst_returns (λ x v. Passes s (next ∷ []) [] x v) e
        (record {
          tcp_results = f.tcp_results;
          utp_results = rw append-nil f.utp_results;
          tcp_in = rw append-nil f.tcp_in;
          utp_in = f.utp_in;
          tcp_known = λ addr e. f.known addr (rw append-nil at e);
          utp_known = λ addr e. cc;
          kept = f.kept;
        }),
  )
  after_tcp s next none u f e =
      let (got₂, p) = poll_utp-Passes u e in
      (
        got₂,
        record {
          tcp_results = p.tcp_results ∙ append-nil u.tcp.results ∙ f.tcp_results;
          utp_results = rw (p.utp_results, f.utp_results) refl;
          tcp_in = p.tcp_in ∙ f.tcp_in ∙ sym (append-nil _);
          utp_in = p.utp_in;
          tcp_known = λ addr e. p.kept addr (f.known addr (rw append-nil at e));
          utp_known = p.utp_known;
          kept = λ addr e. p.kept addr (f.kept addr e);
        },
      )

  pub poll_next-Passes :
      (s : Watched S₁ T₁ S₂ T₂) {result : Next (Connection (CombinedStream T₁ T₂))}
      {s' : Watched S₁ T₁ S₂ T₂}
      → poll_next (recording tcp_part) (recording utp_part) s ≡ returns (result, s')
      → (got₁ : List (Next (Connection T₁))) × (got₂ : List (Next (Connection T₂))) × Passes s got₁
          got₂ result s'
  unfolding poll_next
  poll_next-Passes s e =
      let p = >>=-eq-returns ((recording tcp_part).poll_next s.tcp) _ e in
      let next = p.0.0 in
      let t : Watched S₁ T₁ S₂ T₂ = record s { tcp = p.0.1 } in
      let r = on_poll_connection next CombinedStream.tcp t in
      let (tcp_in, utp_in, same, same') = tcp_incoming {T₂ = T₂} next t in
      let recorded = poll_next-recorded tcp_part s.tcp p.1 in
      let first : First s next r.0 r.1 = record {
        tcp_results = ap (λ (x : Recorded S₁ T₁). x.results) same ∙ recorded.1;
        utp_results = ap (λ (x : Recorded S₂ T₂). x.results) same';
        tcp_in = tcp_in;
        utp_in = utp_in;
        known = λ addr f. initiated_known CombinedStream.tcp next t addr f;
        kept = on_poll_connection-kept CombinedStream.tcp next t;
      } in
      let (got₂, q) = after_tcp s next r.0 r.1 first p.2 in (next ∷ [], got₂, q)
