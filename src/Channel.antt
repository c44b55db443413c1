-- ===== src/Channel.antt =====
-- async_std::channel, an unbounded queue of another crate: its interface, the laws that the source
-- relies on, and a queue that has them.
use hyperswarm_rs.Prelude.{◌≡◌, refl, Option, some, List, [], ◌∷◌, ◌++◌, Poll, pending, ready}

-- Both ends of a channel share one queue `Q` of items `A`. A send gives `none` when it fails.
pub record Channel (Q A : Type 0) : Type 0 where
  pub unbounded : Q
  pub try_send : A → Q → Option Q
  pub poll_next : Q → Poll (Option A) × Q

-- What polling an open channel gives, by what it holds.
abbrev pub received : {A : Type 0} → List A → Poll (Option A)
received [] = pending
received (a ∷ rest) = ready (some a)

abbrev pub rest_of : {A : Type 0} → List A → List A
rest_of [] = []
rest_of (a ∷ rest) = rest

-- An unbounded channel that is not closed: a send succeeds and a poll takes the oldest item.
pub record IsFifo {Q A : Type 0} (c : Channel Q A) : Type 0 where
  pub contents : Q → List A
  pub starts_empty : contents c.unbounded ≡ []
  pub sends :
      (a : A) (q : Q) → (q' : Q) × (c.try_send a q ≡ some q') × (contents q' ≡ contents q ++ a ∷ [])
  pub receives : (q : Q) → (c.poll_next q).0 ≡ received (contents q)
  pub takes : (q : Q) → contents (c.poll_next q).1 ≡ rest_of (contents q)

-- A list is such a channel.
abbrev pub list_channel : {A : Type 0} → Channel (List A) A
list_channel = record {
  unbounded = [];
  try_send = λ a q. some (q ++ a ∷ []);
  poll_next = λ q. (received q, rest_of q);
}

abbrev pub list_channel-IsFifo : {A : Type 0} → IsFifo (list_channel {A = A})
list_channel-IsFifo = record {
  contents = λ q. q;
  starts_empty = refl;
  sends = λ a q. (q ++ a ∷ [], refl, refl);
  receives = λ q. refl;
  takes = λ q. refl;
}
