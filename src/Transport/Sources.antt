-- ===== src/Transport/Sources.antt =====
-- The body that `poll_next` has in both src/transport/tcp.rs and src/transport/utp.rs: the incoming
-- connections are polled first, then those that are being opened.
pub mod Cases
pub mod Opens
use hyperswarm_rs.Prelude.{
  Bool, true, false, Option, none, some, IoResult, pending, ready, Next, Outcome, returns,
}
use hyperswarm_rs.Prelude.Outcomes
use hyperswarm_rs.Transport.{Connection}

module _ {X T I U : Type 0}
    (into_connection : Next X → Bool → Outcome (Option (IoResult (Connection T))))
    (poll_incoming : I → Next X × I) (poll_connects : U → Next X × U) where
  -- The second half.
  unfoldable pub poll_opening : I → U → Outcome (Next (Connection T) × I × U)
  poll_opening incoming connects =
      let (connect, connects') = poll_connects connects in
      Outcomes.◌>>=◌ (into_connection connect true) λ result. elim result [
        | some conn ↦ returns (ready (some conn), incoming, connects')
        | none ↦ returns (pending, incoming, connects')
      ]

  unfoldable pub poll_sources : I → U → Outcome (Next (Connection T) × I × U)
  unfolding poll_opening
  poll_sources incoming connects =
      let (polled, incoming') = poll_incoming incoming in
      Outcomes.◌>>=◌ (into_connection polled false) λ result. elim result [
        | some conn ↦ returns (ready (some conn), incoming', connects)
        | none ↦ poll_opening incoming' connects
      ]
