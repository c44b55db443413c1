-- ===== src/Transport/Recording.antt =====
-- A transport that keeps a record of the addresses that it was told to connect to and of the results of
-- its polls, over any implementation of the trait of src/transport/mod.rs.
use hyperswarm_rs.Prelude.{
  ◌≡◌, List, [], ◌∷◌, ◌++◌, some, ok, err, ready, Next, returns, arith, IoError,
}
use hyperswarm_rs.Prelude.Outcomes
use hyperswarm_rs.Prelude.Outcomes.{>>=-eq-returns}
use hyperswarm_rs.Net.{SocketAddr}
use hyperswarm_rs.Transport.{Connection, Transport}

pub record Recorded (S T : Type 0) : Type 0 where
  pub inner : S
  pub dialled : List SocketAddr
  pub results : List (Next (Connection T))

abbrev pub recording : {S T : Type 0} → Transport S T → Transport (Recorded S T) T
recording t = record {
  connect = λ addr r. record r { inner = t.connect addr r.inner; dialled = r.dialled ++ addr ∷ [] };
  poll_next = λ r. Outcomes.◌>>=◌ (t.poll_next r.inner) λ (result, inner).
      returns (result, record r { inner = inner; results = r.results ++ result ∷ [] });
}

-- The connections among the results.
abbrev pub connections : {T : Type 0} → List (Next (Connection T)) → List (Connection T)
connections [] = []
connections (ready (some (ok conn)) ∷ results) = conn ∷ connections results
connections (_ ∷ results) = connections results

-- The errors among the results, of connections or of anything else.
abbrev pub errors : {A : Type 0} → List (Next A) → List IoError
errors [] = []
errors (ready (some (err e)) ∷ results) = e ∷ errors results
errors (_ ∷ results) = errors results

module _ {S T : Type 0} (t : Transport S T) (r : Recorded S T) {r' : Recorded S T} where
  pub poll_next-recorded :
      {result : Next (Connection T)}
      → (recording t).poll_next r ≡ returns (result, r')
      → (r'.dialled ≡ r.dialled) × (r'.results ≡ r.results ++ result ∷ [])
  poll_next-recorded e = ground (arith, >>=-eq-returns (t.poll_next r.inner) _ e)
