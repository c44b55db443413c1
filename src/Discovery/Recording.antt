-- ===== src/Discovery/Recording.antt =====
-- A discovery that keeps a record of the lookups and announcements asked of it, over any implementation
-- of the trait of src/discovery/mod.rs.
use hyperswarm_rs.Prelude.{◌≡◌, List, [], ◌∷◌, ◌++◌, Next, returns, arith}
use hyperswarm_rs.Prelude.Outcomes
use hyperswarm_rs.Prelude.Outcomes.{>>=-eq-returns}
use hyperswarm_rs.Discovery.{Topic, PeerInfo, Discovery}
use hyperswarm_rs.Discovery.Calls.{Call, looks_up, announces}

pub record Recorded (D : Type 0) : Type 0 where
  pub inner : D
  pub log : List Call
  pub results : List (Next PeerInfo)

abbrev pub recording : {D : Type 0} → Discovery D → Discovery (Recorded D)
recording d = record {
  lookup = λ topic r.
      Outcomes.◌>>=◌ (d.lookup topic r.inner)
        λ inner. returns (record r { inner = inner; log = r.log ++ looks_up topic ∷ [] });
  announce = λ topic r.
      Outcomes.◌>>=◌ (d.announce topic r.inner)
        λ inner. returns (record r { inner = inner; log = r.log ++ announces topic ∷ [] });
  poll_next = λ r. Outcomes.◌>>=◌ (d.poll_next r.inner) λ (result, inner).
      returns (result, record r { inner = inner; results = r.results ++ result ∷ [] });
}

module _ {D : Type 0} (d : Discovery D) (r : Recorded D) {r' : Recorded D} where
  pub log-lookup :
      (topic : Topic)
      → (recording d).lookup topic r ≡ returns r'
      → r'.log ≡ r.log ++ looks_up topic ∷ []
  log-lookup topic e = ground (arith, >>=-eq-returns (d.lookup topic r.inner) _ e)

  pub log-announce :
      (topic : Topic)
      → (recording d).announce topic r ≡ returns r'
      → r'.log ≡ r.log ++ announces topic ∷ []
  log-announce topic e = ground (arith, >>=-eq-returns (d.announce topic r.inner) _ e)

  -- A poll asks nothing, and its result is recorded.
  pub poll_next-recorded :
      {result : Next PeerInfo}
      → (recording d).poll_next r ≡ returns (result, r')
      → (r'.log ≡ r.log) × (r'.results ≡ r.results ++ result ∷ [])
  poll_next-recorded e = ground (arith, >>=-eq-returns (d.poll_next r.inner) _ e)
