-- ===== src/Transport/Combined/Silence.antt =====
-- src/transport/combined.rs: when a poll of both parts says `Poll::Pending`.
use hyperswarm_rs.Prelude.{
  ◌≡◌, refl, sym, ap, ◌∙◌, ◌↔◌, true, none, some, Option, Outcome, Poll, List, ok, err, pending,
  ready, Next, returns, arith,
}
use hyperswarm_rs.Net.{SocketAddr}
use hyperswarm_rs.Transport.{Connection, Transport}
use hyperswarm_rs.Transport.Combined.{
  CombinedTransport, CombinedStream, contains, answer, on_poll_connection, poll_utp, poll_next,
}

-- A part has nothing, is at its end, or has opened a connection to a peer that is known already.
abbrev pub IsSilent : {T : Type 0} → List SocketAddr → Next (Connection T) → Type 0
IsSilent known (ready (some (ok conn))) =
    (conn.is_initiator ≡ true) × (contains known conn.peer_addr ≡ true)
IsSilent known (ready (some (err e))) = ⊥
IsSilent known _ = Unit

module _ {S₁ S₂ T₁ T₂ T : Type 0} (map : T → CombinedStream T₁ T₂) where
  IsSilent-none :
      (next : Next (Connection T)) (s : CombinedTransport S₁ S₂)
      → IsSilent s.connected next
      → on_poll_connection next map s ≡ (none, s)
  unfolding on_poll_connection
  IsSilent-none pending s h = refl
  IsSilent-none (ready none) s h = refl
  IsSilent-none (ready (some (err e))) s h = absurd h
  IsSilent-none (ready (some (ok conn))) s h = ground arith

  none-IsSilent :
      (next : Next (Connection T)) (s : CombinedTransport S₁ S₂)
      → (on_poll_connection next map s).0 ≡ none
      → IsSilent s.connected next
  unfolding on_poll_connection
  none-IsSilent pending s h = tt
  none-IsSilent (ready none) s h = tt
  none-IsSilent (ready (some (err e))) s h = absurd cc
  none-IsSilent (ready (some (ok conn))) s h = (ground arith, ground arith)

answer_pending :
    {R S : Type 0} (found : Option R) (t : S) (k : S → Outcome (Poll (Option R) × S)) {s' : S}
    → answer (found, t) k ≡ returns (pending, s')
    → (found ≡ none) × (k t ≡ returns (pending, s'))
unfolding answer
answer_pending none t k h = (refl, h)
answer_pending (some res) t k h = absurd cc

module _ {S₁ S₂ T₁ T₂ : Type 0} (tcp_part : Transport S₁ T₁) (utp_part : Transport S₂ T₂) where
  utp-IsSilent :
      (s : CombinedTransport S₁ S₂) (r₂ : Next (Connection T₂)) (u₂ : S₂)
      → utp_part.poll_next s.utp ≡ returns (r₂, u₂)
      → (poll_utp tcp_part utp_part s ≡ returns (pending, record s { utp = u₂ }))
        ↔ IsSilent s.connected r₂
  unfolding poll_utp answer
  utp-IsSilent s r₂ u₂ q =
      let t : CombinedTransport S₁ S₂ = record s { utp = u₂ } in
      let r = on_poll_connection {T₁ = T₁} r₂ CombinedStream.utp t in
      let polled : poll_utp tcp_part utp_part s ≡ answer r (λ s'. returns (pending, s')) =
        rw q refl in
      (
        λ h. none-IsSilent CombinedStream.utp r₂ t (answer_pending r.0 r.1 _ (sym polled ∙ h)).0,
        λ silent.
            polled
            ∙ ap (λ x. answer x (λ s'. returns (pending, s')))
                (IsSilent-none {T₁ = T₁} CombinedStream.utp r₂ t silent),
      )

  -- For any two transports that return when they are polled: a poll of the combined transport says
  -- `Pending`, with both parts polled and `connected` as it was, exactly when each part says
  -- `Pending`, is at its end, or gives a connection that it opened to a peer in `connected`; in this
  -- last case it says so although the part was ready.
  pub poll_next-IsSilent :
      (s : CombinedTransport S₁ S₂) (r₁ : Next (Connection T₁)) (u₁ : S₁)
      (r₂ : Next (Connection T₂)) (u₂ : S₂)
      → tcp_part.poll_next s.tcp ≡ returns (r₁, u₁)
      → utp_part.poll_next s.utp ≡ returns (r₂, u₂)
      → (poll_next tcp_part utp_part s ≡ returns (pending, record s { tcp = u₁; utp = u₂ }))
        ↔ (IsSilent s.connected r₁ × IsSilent s.connected r₂)
  unfolding poll_next answer
  poll_next-IsSilent s r₁ u₁ r₂ u₂ p q =
      let t : CombinedTransport S₁ S₂ = record s { tcp = u₁ } in
      let r = on_poll_connection {T₂ = T₂} r₁ CombinedStream.tcp t in
      let polled : poll_next tcp_part utp_part s ≡ answer r (poll_utp tcp_part utp_part) =
        rw p refl in
      let then_utp = utp-IsSilent t r₂ u₂ q in
      (
        λ h.
            let a = answer_pending r.0 r.1 _ (sym polled ∙ h) in
            let silent = none-IsSilent CombinedStream.tcp r₁ t a.0 in
            (
              silent,
              then_utp.0 (
                  ap (λ x. poll_utp tcp_part utp_part x.1)
                    (sym (IsSilent-none {T₂ = T₂} CombinedStream.tcp r₁ t silent))
                  ∙ a.1),
            ),
        λ silent.
            polled
            ∙ ap (λ x. answer x (poll_utp tcp_part utp_part))
                (IsSilent-none {T₂ = T₂} CombinedStream.tcp r₁ t silent.0)
            ∙ then_utp.1 silent.1,
      )
