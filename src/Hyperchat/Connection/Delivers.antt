-- ===== src/Hyperchat/Connection/Delivers.antt =====
-- Two tasks of `connection_loop` of examples/hyperchat.rs, of which one reads what the other writes.
use hyperswarm_rs.Prelude.{
  ℕ, ◌%◌, ◌<◌, ◌≡◌, ◌⊎◌, inl, inr, refl, sym, ap, subst, ◌∙◌, List, [], ◌∷◌, ◌++◌, append_assoc,
  arith, length, length-append, All,
}
use hyperswarm_rs.Channel.{Channel, IsFifo}
use hyperswarm_rs.Hyperchat.{to_be_bytes, from_be_bytes, frame}
use hyperswarm_rs.Hyperchat.Framing.{frames, from_be_bytes-to_be_bytes}
use hyperswarm_rs.Hyperchat.Connection.{AsyncStream, Connection, Event, start, run}
use hyperswarm_rs.Hyperchat.Connection.Laws.{IsStream}
use hyperswarm_rs.Hyperchat.Connection.Frames.{queued_in}
use hyperswarm_rs.Hyperchat.Connection.Sends.{Sent, connection_loop-sends}
use hyperswarm_rs.Hyperchat.Connection.Pieces.{
  Piece, message, given_up, bytes_of, bodies, IsPiece, given_ups,
}
use hyperswarm_rs.Hyperchat.Connection.Books.{Got}
use hyperswarm_rs.Hyperchat.Connection.Receives.{connection_loop-receives}

-- A length is given up of which bytes were read.
abbrev pub Loses : List Piece → Type 0
Loses [] = ⊥
Loses (message header body ∷ pieces) = Loses pieces
Loses (given_up [] ∷ pieces) = Loses pieces
Loses (given_up (b ∷ bytes) ∷ pieces) = Unit

-- Two lists that begin alike, by parts of one length.
parts :
    (xs ys : List ℕ) {xs' ys' : List ℕ}
    → length xs ≡ length ys
    → xs ++ xs' ≡ ys ++ ys'
    → (xs ≡ ys) × (xs' ≡ ys')
parts [] [] h e = (refl, e)
parts [] (y ∷ ys) h e = absurd (omega arith)
parts (x ∷ xs) [] h e = absurd (omega arith)
parts (x ∷ xs) (y ∷ ys) h e = let (same, rest) = parts xs ys (omega arith) cc in (cc, rest)

-- A message behind its length, at the beginning of a frame, is the frame's.
first_frame :
    (header body text : List ℕ) {rest rest' : List ℕ}
    → IsPiece (message header body)
    → length text < 4294967296
    → header ++ (body ++ rest) ≡ frame text ++ rest'
    → (body ≡ text) × (rest ≡ rest')
unfolding frame
first_frame header body text {rest} {rest'} is small e =
    let n = length text % 4294967296 in
    let four : length (to_be_bytes n) ≡ 4 = unfold to_be_bytes in refl in
    let (same, after) =
      parts header (to_be_bytes n) (is.0 ∙ sym four)
        (e ∙ append_assoc (to_be_bytes n) text rest') in
    parts body text
      (sym is.1 ∙ ap from_be_bytes same ∙ from_be_bytes-to_be_bytes n (omega arith) ∙ omega arith)
      after

regroup : (ws xs ys zs : List ℕ) → ws ++ (xs ++ ys) ++ zs ≡ ws ++ (xs ++ (ys ++ zs))
regroup ws xs ys zs = simp append_assoc

frames-append : (xs ys : List (List ℕ)) → frames (xs ++ ys) ≡ frames xs ++ frames ys
frames-append [] ys = refl
frames-append (text ∷ xs) ys = rw (frames-append xs ys, append_assoc)

-- Pieces of the bytes of frames are of the messages in the frames, unless bytes of a length are lost.
bodies-frames :
    (pieces : List Piece) (messages : List (List ℕ)) (rest : List ℕ)
    → All IsPiece pieces
    → All (λ text. length text < 4294967296) messages
    → bytes_of pieces ++ rest ≡ frames messages
    → Loses pieces ⊎ ((others : List (List ℕ)) × (bodies pieces ++ others ≡ messages))
bodies-frames [] messages rest is small e = inr (messages, refl)
bodies-frames (given_up [] ∷ pieces) messages rest is small e =
    bodies-frames pieces messages rest is.1 small e
bodies-frames (given_up (b ∷ bytes) ∷ pieces) messages rest is small e = inl tt
bodies-frames (message header body ∷ pieces) [] rest is small e = absurd (
    omega (
      arith,
      is.0.0,
      ap length (sym (regroup header body (bytes_of pieces) rest) ∙ e),
      length-append header (body ++ (bytes_of pieces ++ rest)),
    ))
bodies-frames (message header body ∷ pieces) (text ∷ messages) rest is small e =
    let (same, after) =
      first_frame header body text is.0 small.0
        (sym (regroup header body (bytes_of pieces) rest) ∙ e) in
    elim (bodies-frames pieces messages rest is.1 small.1 after) [
      | inl loses ↦ inl loses
      | inr (others, all) ↦ inr (others, ground arith)
    ]

Loses-given_ups : (pieces : List Piece) → Loses pieces → 0 < given_ups pieces
Loses-given_ups [] h = absurd h
Loses-given_ups (message header body ∷ pieces) h = Loses-given_ups pieces h
Loses-given_ups (given_up bytes ∷ pieces) h = omega arith

module _ {S R W O I : Type 0} {stream : AsyncStream S R W} (law : IsStream stream)
    {outbound : Channel O (List ℕ)} (queue : IsFifo outbound) {inbound : Channel I (List ℕ)}
    (fifo : IsFifo inbound) where
  open law.views use {read, sent}

  -- The bytes on the way are the beginning of the frames of all messages.
  all_frames :
      (bytes in_flight : List ℕ) {history : List (List ℕ)} {c : Connection S R W O I}
      → (known : Sent law queue inbound [] history c) → bytes ++ in_flight ≡ sent c.stream
      → bytes ++ (in_flight ++ (known.rest ++ frames (queue.contents c.outbound))) ≡ frames history
  all_frames bytes in_flight {history} {c} known e =
      sym (append_assoc bytes in_flight _)
      ∙ ap (λ xs. xs ++ (known.rest ++ frames (queue.contents c.outbound))) e
      ∙ sym (append_assoc (sent c.stream) known.rest _)
      ∙ ap (λ xs. xs ++ frames (queue.contents c.outbound)) known.writes
      ∙ sym (frames-append known.taken (queue.contents c.outbound))
      ∙ ap frames known.queues

  -- Where the channels are unbounded and open, and reading and writing do as they are documented to:
  -- of two tasks of `connection_loop` in any runs, of which the second has read from the beginning
  -- some of what the first has written, all outgoing messages of the first shorter than 2^32 bytes,
  -- what the second read falls into messages behind their lengths and lengths that it gave up for
  -- messages of its own, as many as it took from its channel; and either bytes of such a length were
  -- lost, or the messages that it gave on, and has waiting, are the first of the messages of the
  -- first task, in order.
  pub connection_loop-delivers :
      (events events' : List Event) (s s' : S) (o o' : O) (i i' : I) (in_flight : List ℕ)
      {c c' : Connection S R W O I} {forwarded messages : List (List ℕ)}
      → run stream outbound inbound events
          (record { stage = start stream outbound inbound; stream = s; outbound = o; inbound = i })
        ≡ (forwarded, c)
      → run stream outbound inbound events' (record {
        stage = start stream outbound inbound;
        stream = s';
        outbound = o';
        inbound = i';
      })
        ≡ (messages, c')
      → sent s ≡ []
      → read s' ≡ []
      → fifo.contents i' ≡ []
      → read c'.stream ++ in_flight ≡ sent c.stream
      → All (λ text. length text < 4294967296) (queue.contents o ++ queued_in events)
      → (got : Got law queue fifo
          (read s')
          (fifo.contents i')
          messages
          (length (queue.contents o' ++ queued_in events'))
          c')
        × (Loses got.pieces
            ⊎ ((others : List (List ℕ)) × (messages ++ fifo.contents c'.inbound ++ others
                  ≡ queue.contents o ++ queued_in events)))
  connection_loop-delivers events events' s s' o o' i i' in_flight {c} {c'} {forwarded} {messages}
        ran ran' unsent unread empty on_way small =
      let sends : Sent law queue inbound [] (queue.contents o ++ queued_in events) c =
        subst (λ bytes. Sent law queue inbound bytes (queue.contents o ++ queued_in events) c)
          unsent (connection_loop-sends law queue inbound events s i o ran) in
      let got = connection_loop-receives law queue fifo events' s' o' i' ran' in
      let begins : read c'.stream ≡ bytes_of got.pieces ++ got.part =
        got.reads ∙ ap (λ bytes. bytes ++ (bytes_of got.pieces ++ got.part)) unread in
      let gives : messages ++ fifo.contents c'.inbound ≡ bodies got.pieces =
        got.gives ∙ ap (λ bytes. bytes ++ bodies got.pieces) empty in
      (
        got,
        elim (bodies-frames got.pieces (queue.contents o ++ queued_in events)
            (got.part ++ (in_flight ++ (sends.rest ++ frames (queue.contents c.outbound))))
            got.pieces-IsPiece small
            (sym (append_assoc (bytes_of got.pieces) got.part _)
              ∙ all_frames (bytes_of got.pieces ++ got.part) in_flight sends
                  (ap (λ bytes. bytes ++ in_flight) (sym begins) ∙ on_way))) [
                    | inl loses ↦ inl loses
                    | inr (others, all) ↦ inr (others, ap (λ xs. xs ++ others) gives ∙ all)
                  ],
      )

  -- Where the channels are unbounded and open, and reading and writing do as they are documented to:
  -- of two tasks of `connection_loop` in any runs, of which the second has no message to send and
  -- has read from the beginning some of what the first has written, all outgoing messages of the
  -- first shorter than 2^32 bytes, the messages that the second gave on, and has waiting, are the
  -- first of the messages of the first task, in order.
  pub connection_loop-delivers_one_way :
      (events events' : List Event) (s s' : S) (o o' : O) (i i' : I) (in_flight : List ℕ)
      {c c' : Connection S R W O I} {forwarded messages : List (List ℕ)}
      → run stream outbound inbound events
          (record { stage = start stream outbound inbound; stream = s; outbound = o; inbound = i })
        ≡ (forwarded, c)
      → run stream outbound inbound events' (record {
        stage = start stream outbound inbound;
        stream = s';
        outbound = o';
        inbound = i';
      })
        ≡ (messages, c')
      → sent s ≡ []
      → read s' ≡ []
      → fifo.contents i' ≡ []
      → queue.contents o' ++ queued_in events' ≡ []
      → read c'.stream ++ in_flight ≡ sent c.stream
      → All (λ text. length text < 4294967296) (queue.contents o ++ queued_in events)
      → (others : List (List ℕ)) × (messages ++ fifo.contents c'.inbound ++ others
          ≡ queue.contents o ++ queued_in events)
  connection_loop-delivers_one_way events events' s s' o o' i i' in_flight {c' = c'}
        {messages = messages} ran ran' unsent unread empty silent on_way small =
      let (got, outcome) =
        connection_loop-delivers events events' s s' o o' i i' in_flight ran ran' unsent unread
          empty on_way small in
      elim outcome [
        | inl loses ↦
            absurd (omega (arith, Loses-given_ups got.pieces loses, got.counts, ap length silent))
        | inr delivered ↦ delivered
      ]
