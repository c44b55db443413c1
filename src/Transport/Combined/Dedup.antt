-- ===== src/Transport/Combined/Dedup.antt =====
-- src/transport/combined.rs: the set `connected` beside the connections opened.
use mathlib.Core.Logic.Or
use mathlib.Core.List.Perm
use mathlib.Core.List.{Mem, Nodup, Nodup-cons, not-mem-nil, mem-cons, perm_middle}
use hyperswarm_rs.Prelude.{
  ◌≡◌, sym, ap, ◌∙◌, false, Option, none, some, List, [], ◌∷◌, ◌++◌, append-nil, append_assoc,
  IoResult, ok, err, pending, ready, Next, Outcome, returns, arith,
}
use hyperswarm_rs.Prelude.Outcomes.{>>=-eq-returns, subst_returns}
use hyperswarm_rs.Net.{SocketAddr}
use hyperswarm_rs.Transport.{Connection, Transport}
use hyperswarm_rs.Transport.Calls.{Call, connects, polls, initiated, initiated_all, run}
use hyperswarm_rs.Transport.Combined.{
  CombinedTransport, CombinedStream, contains, answer, on_poll_connection, connect, poll_utp,
  poll_next, combined_transport,
}

not-mem_of_contains :
    (xs : List SocketAddr) (addr : SocketAddr) → contains xs addr ≡ false → ¬ Mem addr xs
not-mem_of_contains [] addr e m = not-mem-nil m
not-mem_of_contains (x ∷ xs) addr e m =
    Or.elim (λ a b. absurd a) (mem-cons.0 m) (λ same. ground (arith, sym same))
      (not-mem_of_contains xs addr (ground arith))

Nodup-snoc :
    (xs : List SocketAddr) (addr : SocketAddr)
    → contains xs addr ≡ false
    → Nodup xs
    → Nodup (xs ++ addr ∷ [])
Nodup-snoc xs addr e n =
    Perm.nodup (Perm.symm (perm_middle xs []))
      (Nodup-cons.1 (simp append-nil (not-mem_of_contains xs addr e), simp append-nil n))

-- The addresses in `after` are those in `before` and then those newly opened, with no repetition.
abbrev pub Opens : List SocketAddr → List SocketAddr → List SocketAddr → Type 0
Opens before opened after = (after ≡ before ++ opened) × (Nodup before → Nodup after)

Opens-none : (before : List SocketAddr) → Opens before [] before
Opens-none before = (rw append-nil, λ n. n)

Opens-trans :
    {before after last : List SocketAddr} (opened opened' : List SocketAddr)
    → Opens before opened after
    → Opens after opened' last
    → Opens before (opened ++ opened') last
Opens-trans {before} opened opened' (e, n) (e', n') = (
  e' ∙ ap (λ (xs : List SocketAddr). xs ++ opened') e ∙ append_assoc before opened opened',
  λ d. n' (n d),
)

-- The address that an accepted connection is opened to.
abbrev opened_by : {T : Type 0} → Option (IoResult (Connection T)) → List SocketAddr
opened_by none = []
opened_by (some res) = initiated (ready (some res))

module _ {S₁ S₂ T₁ T₂ T : Type 0} (map : T → CombinedStream T₁ T₂) where
  on_poll_connection-Opens :
      (next : Next (Connection T)) (s : CombinedTransport S₁ S₂)
      → let (found, s') = on_poll_connection next map s in
        Opens s.connected (opened_by found) s'.connected
  unfolding on_poll_connection
  on_poll_connection-Opens pending s = Opens-none s.connected
  on_poll_connection-Opens (ready none) s = Opens-none s.connected
  on_poll_connection-Opens (ready (some (err e))) s = Opens-none s.connected
  on_poll_connection-Opens (ready (some (ok conn))) s =
      ground (arith, append-nil s.connected, Nodup-snoc s.connected conn.peer_addr)

module _ {S₁ S₂ T : Type 0} where
  answer-Opens :
      (before : List SocketAddr) (found : Option (IoResult (Connection T)))
      (s : CombinedTransport S₁ S₂)
      (k : CombinedTransport S₁ S₂ → Outcome (Next (Connection T) × CombinedTransport S₁ S₂))
      {result : Next (Connection T)} {s' : CombinedTransport S₁ S₂}
      → Opens before (opened_by found) s.connected
      → (k s ≡ returns (result, s') → Opens s.connected (initiated result) s'.connected)
      → answer (found, s) k ≡ returns (result, s')
      → Opens before (initiated result) s'.connected
  unfolding answer
  answer-Opens before none s k o next e = Opens-trans [] _ o (next e)
  answer-Opens before (some res) s k o next e =
      subst_returns (λ r t. Opens before (initiated r) t.connected) e o

  Opens-stay :
      (s : CombinedTransport S₁ S₂) {result : Next (Connection T)} {s' : CombinedTransport S₁ S₂}
      → ◌≡◌ {A = Outcome (Next (Connection T) × CombinedTransport S₁ S₂)}
          (returns (pending, s))
          (returns (result, s'))
      → Opens s.connected (initiated result) s'.connected
  Opens-stay s e =
      subst_returns (λ r t. Opens s.connected (initiated r) t.connected) e (Opens-none s.connected)

module _ {S₁ S₂ T₁ T₂ : Type 0} (tcp_part : Transport S₁ T₁) (utp_part : Transport S₂ T₂) where
  poll_utp-Opens :
      (s : CombinedTransport S₁ S₂) {result : Next (Connection (CombinedStream T₁ T₂))}
      {s' : CombinedTransport S₁ S₂}
      → poll_utp tcp_part utp_part s ≡ returns (result, s')
      → Opens s.connected (initiated result) s'.connected
  unfolding poll_utp
  poll_utp-Opens s e =
      let p = >>=-eq-returns (utp_part.poll_next s.utp) _ e in
      let t = record s { utp = p.0.1 } in
      let r = on_poll_connection p.0.0 CombinedStream.utp t in
      answer-Opens s.connected r.0 r.1 _ (on_poll_connection-Opens CombinedStream.utp p.0.0 t)
        (λ d. Opens-stay r.1 d) p.2

  pub poll_next-Opens :
      (s : CombinedTransport S₁ S₂) {result : Next (Connection (CombinedStream T₁ T₂))}
      {s' : CombinedTransport S₁ S₂}
      → poll_next tcp_part utp_part s ≡ returns (result, s')
      → Opens s.connected (initiated result) s'.connected
  unfolding poll_next
  poll_next-Opens s e =
      let p = >>=-eq-returns (tcp_part.poll_next s.tcp) _ e in
      let t = record s { tcp = p.0.1 } in
      let r = on_poll_connection p.0.0 CombinedStream.tcp t in
      answer-Opens s.connected r.0 r.1 _ (on_poll_connection-Opens CombinedStream.tcp p.0.0 t)
        (poll_utp-Opens r.1) p.2

  run-Opens :
      (calls : List Call) (s : CombinedTransport S₁ S₂)
      {results : List (Next (Connection (CombinedStream T₁ T₂)))} {s' : CombinedTransport S₁ S₂}
      → run (combined_transport tcp_part utp_part) calls s ≡ returns (results, s')
      → Opens s.connected (initiated_all results) s'.connected
  unfolding run connect
  run-Opens [] s e =
      subst_returns (λ r t. Opens s.connected (initiated_all r) t.connected) e
        (Opens-none s.connected)
  run-Opens (connects addr ∷ calls) s e = run-Opens calls (connect tcp_part utp_part addr s) e
  run-Opens (polls ∷ calls) s e =
      let p = >>=-eq-returns (poll_next tcp_part utp_part s) _ e in
      let q = >>=-eq-returns (run (combined_transport tcp_part utp_part) calls p.0.1) _ p.2 in
      subst_returns (λ r t. Opens s.connected (initiated_all r) t.connected) q.2
        (Opens-trans (initiated p.0.0) _ (poll_next-Opens s p.1) (run-Opens calls p.0.1 q.1))

  -- For any two transports and any sequence of calls that runs to its end on a combined transport in
  -- which the addresses in `connected` are distinct: the addresses in `connected` after the calls
  -- are those before them and then, in order, the addresses of the connections opened by this side
  -- that the polls handed out; and they are all distinct, so that no peer is handed out twice as one
  -- that this side connected to.
  pub run-connected :
      (calls : List Call) (s : CombinedTransport S₁ S₂)
      {results : List (Next (Connection (CombinedStream T₁ T₂)))} {s' : CombinedTransport S₁ S₂}
      → Nodup s.connected
      → run (combined_transport tcp_part utp_part) calls s ≡ returns (results, s')
      → (s'.connected ≡ s.connected ++ initiated_all results) × Nodup s'.connected
  run-connected calls s n e = let (same, distinct) = run-Opens calls s e in (same, distinct n)
