-- ===== src/Discovery/Combined/Weave.antt =====
-- src/discovery/combined.rs: a run of the combined discovery beside the runs of its parts.
use hyperswarm_rs.Prelude.{
  ◌≡◌, subst₂, ◌⊎◌, inl, inr, Option, List, [], ◌∷◌, IoResult, pending, ready, Next, returns, arith,
  if◌then◌else◌,
}
use hyperswarm_rs.Prelude.Outcomes.{>>=-eq-returns}
use hyperswarm_rs.Discovery.{Topic, PeerInfo, Discovery}
use hyperswarm_rs.Discovery.Calls.{Call, looks_up, announces, polls, run}
use hyperswarm_rs.Discovery.Combined.{
  CombinedDiscovery, is_ready, lookup, announce, poll_mdns, poll_next, combined_discovery,
}

-- The calls that reach the second part, given the results of the polls of the first: all but the polls
-- that the first part answers.
abbrev pub left_over : List Call → List (Next PeerInfo) → List Call
left_over [] results = []
left_over (looks_up topic ∷ calls) results = looks_up topic ∷ left_over calls results
left_over (announces topic ∷ calls) results = announces topic ∷ left_over calls results
left_over (polls ∷ calls) [] = []
left_over (polls ∷ calls) (pending ∷ results) = polls ∷ left_over calls results
left_over (polls ∷ calls) (ready item ∷ results) = left_over calls results

-- The results of the first part, with those of the second where the first has none.
abbrev pub merge : List (Next PeerInfo) → List (Next PeerInfo) → List (Next PeerInfo)
merge [] results = []
merge (ready item ∷ firsts) results = ready item ∷ merge firsts results
merge (pending ∷ firsts) [] = []
merge (pending ∷ firsts) (result ∷ results) = result ∷ merge firsts results

module _ {H M : Type 0} (dht : Discovery H) (mdns : Discovery M) where
  -- A poll of both is a poll of the first, and of the second if the first has nothing.
  abbrev PollsBoth : CombinedDiscovery H M → Next PeerInfo → CombinedDiscovery H M → Type 0
  PollsBoth s result s' =
      ((item : Option (IoResult PeerInfo)) × (dht.poll_next s.dht ≡ returns (ready item, s'.dht))
        × (s'.mdns ≡ s.mdns)
        × (result ≡ ready item))
      ⊎ ((dht.poll_next s.dht ≡ returns (pending, s'.dht))
          × (mdns.poll_next s.mdns ≡ returns (result, s'.mdns)))

  after_dht :
      (s : CombinedDiscovery H M) (next : Next PeerInfo) (dht' : H) {result : Next PeerInfo}
      {s' : CombinedDiscovery H M}
      → dht.poll_next s.dht ≡ returns (next, dht')
      → (if is_ready next
          then returns (next, record s { dht = dht' })
          else poll_mdns dht mdns (record s { dht = dht' }))
        ≡ returns (result, s')
      → PollsBoth s result s'
  unfolding poll_mdns
  after_dht s (ready item) dht' p e = inl (item, ground arith, ground arith, ground arith)
  after_dht s pending dht' p e =
      let q = >>=-eq-returns (mdns.poll_next s.mdns) _ e in
      inr (ground (arith, q.2), ground (arith, q.1, q.2))

  poll_next-PollsBoth :
      (s : CombinedDiscovery H M) {result : Next PeerInfo} {s' : CombinedDiscovery H M}
      → poll_next dht mdns s ≡ returns (result, s')
      → PollsBoth s result s'
  unfolding poll_next
  poll_next-PollsBoth s e =
      let p = >>=-eq-returns (dht.poll_next s.dht) _ e in after_dht s p.0.0 p.0.1 p.1 p.2

  lookup-both :
      (topic : Topic) (s : CombinedDiscovery H M) {s' : CombinedDiscovery H M}
      → lookup dht mdns topic s ≡ returns s'
      → (dht.lookup topic s.dht ≡ returns s'.dht) × (mdns.lookup topic s.mdns ≡ returns s'.mdns)
  unfolding lookup
  lookup-both topic s e = ground arith

  announce-both :
      (topic : Topic) (s : CombinedDiscovery H M) {s' : CombinedDiscovery H M}
      → announce dht mdns topic s ≡ returns s'
      → (dht.announce topic s.dht ≡ returns s'.dht) × (mdns.announce topic s.mdns ≡ returns s'.mdns)
  unfolding announce
  announce-both topic s e = ground arith

  -- The statement of `run-Weaves`.
  abbrev pub Weaves :
      List Call → CombinedDiscovery H M → List (Next PeerInfo) → CombinedDiscovery H M → Type 0
  Weaves calls s results s' =
      (firsts : List (Next PeerInfo)) × (seconds : List (Next PeerInfo)) × (run dht calls s.dht
        ≡ returns (firsts, s'.dht))
      × (run mdns (left_over calls firsts) s.mdns ≡ returns (seconds, s'.mdns))
      × (results ≡ merge firsts seconds)

  polls-weave :
      (calls : List Call) (s t : CombinedDiscovery H M) {result : Next PeerInfo}
      {results : List (Next PeerInfo)} {s' : CombinedDiscovery H M}
      → PollsBoth s result t
      → Weaves calls t results s'
      → Weaves (polls ∷ calls) s (result ∷ results) s'
  unfolding run
  polls-weave calls s t (inl (item, p, kept, e)) (firsts, seconds, d, m, r) =
      (ready item ∷ firsts, seconds, ground arith, ground arith, ground arith)
  polls-weave calls s t {result = result} (inr (p, q)) (firsts, seconds, d, m, r) =
      (pending ∷ firsts, result ∷ seconds, ground arith, ground arith, ground arith)

  -- For any two discoveries and any sequence of calls that runs to its end on the combined
  -- discovery: the first part runs through all of these calls and the second through all but the
  -- polls that the first answered; each ends in its own part of the final state; and the results of
  -- the polls are those of the first part, with the second's in the places where the first said
  -- `Pending`.
  pub run-Weaves :
      (calls : List Call) (s : CombinedDiscovery H M) {results : List (Next PeerInfo)}
      {s' : CombinedDiscovery H M}
      → run (combined_discovery dht mdns) calls s ≡ returns (results, s')
      → Weaves calls s results s'
  unfolding run
  run-Weaves [] s e = ([], [], ground arith, ground arith, ground arith)
  run-Weaves (looks_up topic ∷ calls) s e =
      let p = >>=-eq-returns (lookup dht mdns topic s) _ e in
      let both = lookup-both topic s p.1 in
      let (firsts, seconds, d, m, r) = run-Weaves calls p.0 p.2 in
      (firsts, seconds, rw both.0 d, rw both.1 m, r)
  run-Weaves (announces topic ∷ calls) s e =
      let p = >>=-eq-returns (announce dht mdns topic s) _ e in
      let both = announce-both topic s p.1 in
      let (firsts, seconds, d, m, r) = run-Weaves calls p.0 p.2 in
      (firsts, seconds, rw both.0 d, rw both.1 m, r)
  run-Weaves (polls ∷ calls) s {results} {s'} e =
      let p = >>=-eq-returns (poll_next dht mdns s) _ e in
      let q = >>=-eq-returns (run (combined_discovery dht mdns) calls p.0.1) _ p.2 in
      let same : (p.0.0 ∷ q.0.0 ≡ results) × (q.0.1 ≡ s') = ground (arith, q.2) in
      subst₂ (Weaves (polls ∷ calls) s) same.0 same.1
        (polls-weave calls s p.0.1 (poll_next-PollsBoth s p.1) (run-Weaves calls p.0.1 q.1))
