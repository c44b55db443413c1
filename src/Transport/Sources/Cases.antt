-- ===== src/Transport/Sources/Cases.antt =====
-- What a poll of the two sources of src/transport/tcp.rs or src/transport/utp.rs comes to.
use hyperswarm_rs.Prelude.{
  ◌≡◌, Bool, true, false, Option, none, some, IoResult, pending, ready, Next, Outcome, returns,
  arith,
}
use hyperswarm_rs.Prelude.Outcomes.{>>=-eq-returns}
use hyperswarm_rs.Transport.{Connection}
use hyperswarm_rs.Transport.Sources.{poll_opening, poll_sources}

module _ {X T I U : Type 0}
    (into_connection : Next X → Bool → Outcome (Option (IoResult (Connection T))))
    (poll_incoming : I → Next X × I) (poll_connects : U → Next X × U) where
  -- A connection came in, one was opened, or neither source has any.
  pub data Polled (i : I) (u : U) (result : Next (Connection T)) (i' : I) (u' : U) : Type 0 where
    came_in :
        (conn : IoResult (Connection T))
        → into_connection (poll_incoming i).0 false ≡ returns (some conn)
        → result ≡ ready (some conn)
        → u' ≡ u
        → Polled i u result i' u'
    opened :
        (conn : IoResult (Connection T))
        → into_connection (poll_connects u).0 true ≡ returns (some conn)
        → result ≡ ready (some conn)
        → u' ≡ (poll_connects u).1
        → Polled i u result i' u'
    neither :
        into_connection (poll_connects u).0 true ≡ returns none
        → result ≡ pending
        → u' ≡ (poll_connects u).1
        → Polled i u result i' u'

  second :
      (i i₀ : I) (u : U) (found : Option (IoResult (Connection T))) {result : Next (Connection T)}
      {i' : I} {u' : U}
      → into_connection (poll_connects u).0 true ≡ returns found
      → elim found as (λ _. Outcome (Next (Connection T) × I × U)) [
        | some conn ↦ returns (ready (some conn), i, (poll_connects u).1)
        | none ↦ returns (pending, i, (poll_connects u).1)
      ]
        ≡ returns (result, i', u')
      → Polled i₀ u result i' u'
  second i i₀ u none p e = neither p (ground arith) (ground arith)
  second i i₀ u (some conn) p e = opened conn p (ground arith) (ground arith)

  poll_opening-Polled :
      (i i₀ : I) (u : U) {result : Next (Connection T)} {i' : I} {u' : U}
      → poll_opening into_connection poll_incoming poll_connects i u ≡ returns (result, i', u')
      → Polled i₀ u result i' u'
  unfolding poll_opening
  poll_opening-Polled i i₀ u e =
      let p = >>=-eq-returns (into_connection (poll_connects u).0 true) _ e in
      second i i₀ u p.0 p.1 p.2

  firstly :
      (i : I) (u : U) (found : Option (IoResult (Connection T))) {result : Next (Connection T)}
      {i' : I} {u' : U}
      → into_connection (poll_incoming i).0 false ≡ returns found
      → elim found as (λ _. Outcome (Next (Connection T) × I × U)) [
        | some conn ↦ returns (ready (some conn), (poll_incoming i).1, u)
        | none ↦ poll_opening into_connection poll_incoming poll_connects (poll_incoming i).1 u
      ]
        ≡ returns (result, i', u')
      → Polled i u result i' u'
  firstly i u none p e = poll_opening-Polled (poll_incoming i).1 i u e
  firstly i u (some conn) p e = came_in conn p (ground arith) (ground arith)

  pub poll_sources-Polled :
      (i : I) (u : U) {result : Next (Connection T)} {i' : I} {u' : U}
      → poll_sources into_connection poll_incoming poll_connects i u ≡ returns (result, i', u')
      → Polled i u result i' u'
  unfolding poll_sources
  poll_sources-Polled i u e =
      let p = >>=-eq-returns (into_connection (poll_incoming i).0 false) _ e in
      firstly i u p.0 p.1 p.2
