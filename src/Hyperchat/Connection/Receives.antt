-- ===== src/Hyperchat/Connection/Receives.antt =====
-- `connection_loop` of examples/hyperchat.rs: what it makes of the bytes that it reads.
use hyperswarm_rs.Prelude.{
  ℕ, suc, ◌+◌, ◌≡◌, refl, sym, ap, subst, ◌∙◌, Option, none, some, List, [], ◌∷◌, ◌++◌, append-nil,
  append_assoc, Poll, pending, ready, arith, length, length-append,
}
use hyperswarm_rs.Channel.{Channel, IsFifo, received, rest_of}
use hyperswarm_rs.Hyperchat.Connection.{
  AsyncStream, Connection, Event, turns, forwards, queues, start, turn, queued, forwarded, run,
}
use hyperswarm_rs.Hyperchat.Connection.Frames.{queued_in}
use hyperswarm_rs.Hyperchat.Connection.Reading.{after_turn}
use hyperswarm_rs.Hyperchat.Connection.Books.{Got}
use hyperswarm_rs.Hyperchat.Connection.Laws.{IsStream}

module _ {S R W O I : Type 0} {stream : AsyncStream S R W} (law : IsStream stream)
    {outbound : Channel O (List ℕ)} (queue : IsFifo outbound) {inbound : Channel I (List ℕ)}
    (fifo : IsFifo inbound) where
  open law.views use {read, so_far, wants}

  module _ {unread : List ℕ} {before given : List (List ℕ)} {asked : ℕ} where
    after_queued :
        (c : Connection S R W O I) (o : O) (text : List ℕ)
        → Got law queue fifo unread before given asked c
        → queue.contents o ≡ queue.contents c.outbound ++ text ∷ []
        → Got law queue fifo unread before given (asked + 1) (record c { outbound = o })
    after_queued c o text known e = record {
      pieces = known.pieces;
      part = known.part;
      pieces-IsPiece = known.pieces-IsPiece;
      reads = known.reads;
      gives = known.gives;
      counts =
          omega (
            arith,
            known.counts,
            ap length e,
            length-append (queue.contents c.outbound) (text ∷ []),
          );
      holds = known.holds;
    }

    recounted :
        {c : Connection S R W O I} {asked' : ℕ}
        → Got law queue fifo unread before given asked c
        → asked ≡ asked'
        → Got law queue fifo unread before given asked' c
    recounted {c} known e = subst (λ n. Got law queue fifo unread before given n c) e known

    passed :
        {given' : List (List ℕ)} (c : Connection S R W O I) (i : I)
        → Got law queue fifo unread before given asked c
        → given' ++ fifo.contents i ≡ given ++ fifo.contents c.inbound
        → Got law queue fifo unread before given' asked (record c { inbound = i })
    passed c i known e = record {
      pieces = known.pieces;
      part = known.part;
      pieces-IsPiece = known.pieces-IsPiece;
      reads = known.reads;
      gives = e ∙ known.gives;
      counts = known.counts;
      holds = known.holds;
    }

    after_forward :
        (c : Connection S R W O I) (polled : Poll (Option (List ℕ))) (i : I)
        (waiting : List (List ℕ))
        → Got law queue fifo unread before given asked c
        → fifo.contents c.inbound ≡ waiting
        → polled ≡ received waiting
        → fifo.contents i ≡ rest_of waiting
        → Got law queue fifo unread before
            (given ++ forwarded stream outbound inbound polled [])
            asked
            (record c { inbound = i })
    after_forward c pending i [] known e f g =
        passed c i known
          (ap (λ q. q ++ fifo.contents i) (append-nil given) ∙ ap (λ q. given ++ q) (g ∙ sym e))
    after_forward c pending i (m ∷ waiting) known e f g = absurd cc
    after_forward c (ready none) i [] known e f g = absurd cc
    after_forward c (ready none) i (m ∷ waiting) known e f g = absurd cc
    after_forward c (ready (some text)) i [] known e f g = absurd cc
    after_forward c (ready (some text)) i (m ∷ waiting) known e f g =
        let same : text ≡ m = ground arith in
        passed c i known
          (append_assoc given (text ∷ []) _ ∙ ap (λ q. given ++ q) (rw (same, g, e) refl))

  forwarded-append :
      (polled : Poll (Option (List ℕ))) (given messages : List (List ℕ))
      → given ++ forwarded stream outbound inbound polled [] ++ messages
        ≡ given ++ forwarded stream outbound inbound polled messages
  forwarded-append pending given messages = ap (λ q. q ++ messages) (append-nil given)
  forwarded-append (ready none) given messages = ap (λ q. q ++ messages) (append-nil given)
  forwarded-append (ready (some text)) given messages = append_assoc given (text ∷ []) messages

  run-Got :
      (events : List Event) (c : Connection S R W O I) {unread : List ℕ}
      {before given : List (List ℕ)} {asked : ℕ}
      → Got law queue fifo unread before given asked c
      → let (messages, c') = run stream outbound inbound events c in
        Got law queue fifo unread before (given ++ messages) (asked + length (queued_in events)) c'
  unfolding run turn
  run-Got [] c {unread} {before} {given} {asked} known =
      recounted
        (subst (λ q. Got law queue fifo unread before q asked c) (sym (append-nil given)) known)
        (omega arith)
  run-Got (turns ∷ events) c known =
      run-Got events _ (after_turn law queue fifo c.stage c known refl)
  run-Got (queues text ∷ events) c {unread} {before} {given} {asked} known =
      let (o, accepted, holds) = queue.sends text c.outbound in
      subst
        (λ result.
          let (messages, c') =
            run stream outbound inbound events (queued stream outbound inbound result c) in
          Got law queue fifo unread before (given ++ messages)
            (asked + suc (length (queued_in events))) c')
        (sym accepted)
        (recounted (run-Got events _ (after_queued c o text known holds)) (omega arith))
  run-Got (forwards ∷ events) c {unread} {before} {given} {asked} known =
      let (polled, i) = inbound.poll_next c.inbound in
      let (messages, c') = run stream outbound inbound events (record c { inbound = i }) in
      subst (λ q. Got law queue fifo unread before q (asked + length (queued_in events)) c')
        (forwarded-append polled given messages)
        (run-Got events _ (
          after_forward c polled i (fifo.contents c.inbound) known refl (fifo.receives c.inbound)
            (fifo.takes c.inbound)))

  -- Where the channels are unbounded and open, and reading and writing do as they are documented to:
  -- after any run of `connection_loop`, the bytes that it has read fall into pieces, each a message
  -- behind its length or the at most three bytes of a length that was given up, followed by those of
  -- the length or the message at hand; the messages given on, followed by those that wait, are those
  -- that waited before and the messages of the pieces, in order; and as many lengths were given up
  -- as messages were taken from the channel of outgoing ones.
  pub connection_loop-receives :
      (events : List Event) (s : S) (o : O) (i : I) {c : Connection S R W O I}
      {messages : List (List ℕ)}
      → run stream outbound inbound events
          (record { stage = start stream outbound inbound; stream = s; outbound = o; inbound = i })
        ≡ (messages, c)
      → Got law queue fifo
          (read s)
          (fifo.contents i)
          messages
          (length (queue.contents o ++ queued_in events))
          c
  connection_loop-receives events s o i {c} {messages} e =
      recounted
        (subst
          (λ (result : List (List ℕ) × Connection S R W O I).
            Got law queue fifo (read s) (fifo.contents i) result.0
              (length (queue.contents o) + length (queued_in events)) result.1)
          e
          (run-Got events _ {given = []} (record {
            pieces = [];
            part = [];
            pieces-IsPiece = tt;
            reads = sym (append-nil _);
            gives = sym (append-nil _);
            counts = omega arith;
            holds = (sym (law.reads_from_nothing 4), law.wants_all 4, omega arith);
          })))
        (sym (length-append (queue.contents o) (queued_in events)))
