-- ===== src/Discovery/Dht/Rule.antt =====
-- How to prove something of `poll_next` of src/discovery/dht.rs: by what one round of its loop keeps.
use hyperswarm_rs.Prelude.{ℕ, zero, suc, ◌≡◌, Next, Outcome, returns, arith, subst₂}
use hyperswarm_rs.Discovery.{PeerInfo}
use hyperswarm_rs.Discovery.Dht.{
  HyperDht, DhtDiscovery, Round, yields, breaks, repeats, proceed, round, poll_next,
}

-- A round either goes on in a state with `P`, or yields a result and a state with `Q`.
abbrev pub AfterRound {ℓ} :
    {D : Type 0}
    → (DhtDiscovery D → Type ℓ)
    → (Next PeerInfo → DhtDiscovery D → Type ℓ)
    → Round D
    → Type ℓ
AfterRound P Q (yields result s) = Q result s
AfterRound P Q breaks = Unit
AfterRound P Q (repeats s) = P s

module _ {ℓ} {D : Type 0} (P : DhtDiscovery D → Type ℓ)
    (Q : Next PeerInfo → DhtDiscovery D → Type ℓ) where
  proceed-rule :
      {again : DhtDiscovery D → Outcome (Next PeerInfo × DhtDiscovery D)} {result : Next PeerInfo}
      {s' : DhtDiscovery D}
      → ((t : DhtDiscovery D) → P t → again t ≡ returns (result, s') → Q result s')
      → (r : Round D) → AfterRound P Q r
      → proceed again r ≡ returns (result, s')
      → Q result s'
  unfolding proceed
  proceed-rule {result = result} {s' = s'} ih (yields x t) q e =
      let same : (x ≡ result) × (t ≡ s') = ground arith in subst₂ Q same.0 same.1 q
  proceed-rule ih breaks q e = cc
  proceed-rule ih (repeats t) p e = ih t p e

  -- What every round keeps holds of what the poll returns.
  pub poll_next-rule :
      (hyper : HyperDht D)
      → ((s : DhtDiscovery D) → P s → AfterRound P Q (round hyper s))
      → (fuel : ℕ) (s : DhtDiscovery D) {result : Next PeerInfo} {s' : DhtDiscovery D} → P s
      → poll_next hyper fuel s ≡ returns (result, s')
      → Q result s'
  unfolding poll_next
  poll_next-rule hyper keeps zero s p e = cc
  poll_next-rule hyper keeps (suc fuel) s p e =
      proceed-rule (λ t. poll_next-rule hyper keeps fuel t) (round hyper s) (keeps s p) e
