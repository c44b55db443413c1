-- ===== src/Hyperchat/Connection/Reading.antt =====
-- `connection_loop` of examples/hyperchat.rs: what a turn makes of the bytes that it reads.
use hyperswarm_rs.Prelude.{
  ℕ, ◌≡◌, refl, sym, ap, subst, ◌∙◌, Option, none, some, List, [], ◌∷◌, ◌++◌, append-nil,
  append_assoc, IoResult, ok, err, Poll, pending, ready, arith, length,
}
use hyperswarm_rs.Channel.{Channel, IsFifo, received, rest_of}
use hyperswarm_rs.Hyperchat.Connection.{
  AsyncStream, Stage, selecting, reading, writing, ended, send_failed, Connection, on_outbound,
  on_length, on_sent, on_message, on_written, start, turn_at,
}
use hyperswarm_rs.Hyperchat.Connection.Pieces.{message, given_up}
use hyperswarm_rs.Hyperchat.Connection.Books.{Holds, Got, kept, cut, more}
use hyperswarm_rs.Hyperchat.Connection.Laws.{IsStream, Reads}

module _ {S R W O I : Type 0} {stream : AsyncStream S R W} (law : IsStream stream)
    {outbound : Channel O (List ℕ)} (queue : IsFifo outbound) {inbound : Channel I (List ℕ)}
    (fifo : IsFifo inbound) where
  open law.views use {read, so_far, wants}

  module _ {unread : List ℕ} {before given : List (List ℕ)} {asked : ℕ} where
    after_outbound :
        (r : R) (c : Connection S R W O I) (polled : Poll (Option (List ℕ))) (o : O)
        (waiting : List (List ℕ))
        → Got law queue fifo unread before given asked (record c { stage = selecting r })
        → queue.contents c.outbound ≡ waiting
        → polled ≡ received waiting
        → queue.contents o ≡ rest_of waiting
        → Got law queue fifo unread before given asked
            (on_outbound stream outbound inbound r polled (record c { outbound = o }))
    unfolding on_outbound
    after_outbound r c pending o [] known e f g =
        kept law queue fifo _ known refl (g ∙ sym e) refl known.holds
    after_outbound r c pending o (m ∷ waiting) known e f g = absurd cc
    after_outbound r c (ready none) o [] known e f g = absurd cc
    after_outbound r c (ready none) o (m ∷ waiting) known e f g = absurd cc
    after_outbound r c (ready (some text)) o [] known e f g = absurd cc
    after_outbound r c (ready (some text)) o (m ∷ waiting) known e f g =
        cut law queue fifo _ known (given_up known.part) known.holds.2 (append-nil known.part) refl
          (sym (append-nil _)) (omega (arith, ap length e, ap length g)) refl

    after_length :
        (r r' : R) (c : Connection S R W O I) (s : S) (polled : Poll (IoResult (List ℕ)))
        (bytes : List ℕ)
        → Got law queue fifo unread before given asked (record c { stage = selecting r })
        → read s ≡ read c.stream ++ bytes
        → Reads law.views r bytes polled r'
        → Got law queue fifo unread before given asked
            (on_length stream outbound inbound r' polled (record c { stream = s }))
    unfolding on_length
    after_length r r' c s pending bytes known took (so, wanted, less) =
        let (part, wants_four, short) = known.holds in
        let same : known.part ++ bytes ≡ so_far r' = ap (λ all. all ++ bytes) part ∙ sym so in
        after_outbound r' (record c { stream = s }) _ _ (queue.contents c.outbound)
          (more law queue fifo _ known bytes took refl refl
            (same, wanted ∙ wants_four, rw same (omega (less, wants_four, arith))))
          refl (queue.receives c.outbound) (queue.takes c.outbound)
    after_length r r' c s (ready (ok len_buf)) bytes known took (all, full) =
        let (part, wants_four, short) = known.holds in
        more law queue fifo _ known bytes took refl refl (
          len_buf,
          ap (λ xs. xs ++ bytes) part
              ∙ sym all
              ∙ sym (append-nil len_buf)
              ∙ ap (λ xs. len_buf ++ xs) (sym (law.reads_from_nothing _)),
          full ∙ wants_four,
          law.wants_all _,
        )
    after_length r r' c s (ready (err e)) bytes known took h =
        more law queue fifo _ known bytes took refl refl tt

    after_message :
        (r r' : R) (c : Connection S R W O I) (s : S) (polled : Poll (IoResult (List ℕ)))
        (bytes : List ℕ)
        → Got law queue fifo unread before given asked (record c { stage = reading r })
        → read s ≡ read c.stream ++ bytes
        → Reads law.views r bytes polled r'
        → Got law queue fifo unread before given asked
            (on_message stream outbound inbound r' polled (record c { stream = s }))
    unfolding on_message on_sent more
    after_message r r' c s pending bytes known took (so, wanted, less) =
        let (header, part, four, size) = known.holds in
        more law queue fifo _ known bytes took refl refl (
          header,
          ap (λ xs. xs ++ bytes) part
              ∙ append_assoc header _ bytes
              ∙ ap (λ xs. header ++ xs) (sym so),
          four,
          wanted ∙ size,
        )
    after_message r r' c s (ready (err e)) bytes known took h =
        more law queue fifo _ known bytes took refl refl tt
    after_message r r' c s (ready (ok buf)) bytes known took (all, full) =
        let (header, part, four, size) = known.holds in
        let (i, accepted, now) = fifo.sends buf c.inbound in
        let fresh : Holds law queue fifo (start stream outbound inbound) [] =
          (sym (law.reads_from_nothing 4), law.wants_all 4, omega arith) in
        subst
          (λ sent_to.
            Got law queue fifo unread before given asked
              (on_sent stream outbound inbound sent_to (record c { stream = s })))
          (sym accepted)
          (cut law queue fifo _
            (more law queue fifo (record c { stream = s; stage = ended send_failed }) known bytes
              took refl refl tt)
            (message header buf) (four, sym (full ∙ size))
            (ap (λ xs. header ++ xs) (append-nil buf ∙ all)
              ∙ sym (append_assoc header _ bytes)
              ∙ ap (λ xs. xs ++ bytes) (sym part))
            refl now (omega arith) fresh)

    after_written :
        (w w' : W) (c : Connection S R W O I) (polled : Poll (IoResult (Unit {0})))
        → Got law queue fifo unread before given asked (record c { stage = writing w })
        → Got law queue fifo unread before given asked
            (on_written stream outbound inbound w' polled c)
    unfolding on_written
    after_written w w' c pending known = kept law queue fifo _ known refl refl refl known.holds
    after_written w w' c (ready (err e)) known = kept law queue fifo _ known refl refl refl tt
    after_written w w' c (ready (ok u)) known = kept law queue fifo _ known refl refl refl (
      known.holds ∙ sym (law.reads_from_nothing 4),
      law.wants_all 4,
      omega (arith, ap length known.holds),
    )

    pub after_turn :
        (stage : Stage R W) (c : Connection S R W O I)
        → Got law queue fifo unread before given asked (record c { stage = stage })
        → c.stage ≡ stage
        → Got law queue fifo unread before given asked (turn_at stream outbound inbound stage c)
    unfolding turn_at
    after_turn (selecting r) c known at =
        let (bytes, took, same, rest) = law.polls_read r c.stream in
        after_length r _ c _ (stream.poll_read r c.stream).0 bytes known took rest
    after_turn (reading r) c known at =
        let (bytes, took, same, rest) = law.polls_read r c.stream in
        after_message r _ c _ (stream.poll_read r c.stream).0 bytes known took rest
    after_turn (writing w) c known at =
        let (bytes, wrote, same, rest) = law.polls_write w c.stream in
        after_written w _ _ (stream.poll_write w c.stream).0
          (kept law queue fifo _ known same refl refl known.holds)
    after_turn (ended e) c known at =
        kept law queue fifo c known refl refl refl
          (subst (λ t. Holds law queue fifo t known.part) (sym at) tt)
