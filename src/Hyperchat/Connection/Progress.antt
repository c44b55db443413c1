-- ===== src/Hyperchat/Connection/Progress.antt =====
-- `connection_loop` of examples/hyperchat.rs: turns while nothing comes in.
use hyperswarm_rs.Prelude.{
  ℕ, ◌<◌, ◌≡◌, refl, sym, ap, subst, ◌∙◌, some, List, [], ◌∷◌, ◌++◌, append-nil, ok, pending, ready,
  arith, length,
}
use hyperswarm_rs.Channel.{Channel, IsFifo, received, rest_of}
use hyperswarm_rs.Hyperchat.{frame}
use hyperswarm_rs.Hyperchat.Framing.{frames}
use hyperswarm_rs.Hyperchat.Connection.{
  AsyncStream, Stage, selecting, writing, Connection, Event, turns, on_outbound, on_length,
  on_written, start, turn_at, turn, run,
}
use hyperswarm_rs.Hyperchat.Connection.Laws.{IsStream}
use hyperswarm_rs.Hyperchat.Connection.Frames.{queued_in}
use hyperswarm_rs.Hyperchat.Connection.Sends.{Sent, connection_loop-sends}

-- A stream on which, from the states `quiet` on, nothing comes in and a write is done at once.
pub record IsQuiet {S R W : Type 0} {stream : AsyncStream S R W} (law : IsStream stream)
    (quiet : S → Type 0) : Type 0 where
  pub waits :
      (r : R) (s : S)
      → quiet s
      → length (law.views.so_far r) < law.views.wants r
      → ((stream.poll_read r s).0 ≡ pending) × quiet (stream.poll_read r s).2
  pub takes :
      (w : W) (s : S)
      → quiet s
      → ((stream.poll_write w s).0 ≡ ready (ok tt)) × quiet (stream.poll_write w s).2

-- Two turns for each message.
abbrev pub turns_for : List (List ℕ) → List Event
turns_for [] = []
turns_for (message ∷ messages) = turns ∷ turns ∷ turns_for messages

nothing_queued : (messages : List (List ℕ)) → queued_in (turns_for messages) ≡ []
nothing_queued [] = refl
nothing_queued (message ∷ messages) = nothing_queued messages

module _ {S R W O I : Type 0} {stream : AsyncStream S R W} (law : IsStream stream)
    {quiet : S → Type 0} (calm : IsQuiet law quiet) {outbound : Channel O (List ℕ)}
    (fifo : IsFifo outbound) (inbound : Channel I (List ℕ)) where
  open law.views use {sent, so_far, wants}

  abbrev at : Stage R W → S → O → I → Connection S R W O I
  at stage s o i = record { stage = stage; stream = s; outbound = o; inbound = i }

  takes_message :
      (message : List ℕ) (messages : List (List ℕ)) (r : R) (s : S) (o : O) (i : I)
      → length (so_far r) < wants r
      → quiet s
      → fifo.contents o ≡ message ∷ messages
      → turn stream outbound inbound (at (selecting r) s o i)
        ≡ at
            (writing (stream.write_all (frame message)))
            (stream.poll_read r s).2
            (outbound.poll_next o).1
            i
  unfolding turn turn_at on_length on_outbound
  takes_message message messages r s o i short calm_now holds =
      let gives : (outbound.poll_next o).0 ≡ ready (some message) =
        fifo.receives o ∙ ap received holds in
      rw ((calm.waits r s calm_now short).0, gives) refl

  writes_message :
      (w : W) (s : S) (o : O) (i : I)
      → quiet s
      → turn stream outbound inbound (at (writing w) s o i)
        ≡ at (start stream outbound inbound) (stream.poll_write w s).2 o i
  unfolding turn turn_at on_written
  writes_message w s o i calm_now = rw (calm.takes w s calm_now).0 refl

  writes_all :
      (messages : List (List ℕ)) (r : R) (s : S) (o : O) (i : I)
      → length (so_far r) < wants r
      → quiet s
      → fifo.contents o ≡ messages
      → (r' : R) × (s' : S) × (o' : O) × (fifo.contents o' ≡ [])
        × ((run stream outbound inbound (turns_for messages) (at (selecting r) s o i)).1
            ≡ at (selecting r') s' o' i)
  unfolding run
  writes_all [] r s o i short calm_now holds = (r, s, o, holds, refl)
  writes_all (message ∷ messages) r s o i short calm_now holds =
      let (waits, calm_then) = calm.waits r s calm_now short in
      let w = stream.write_all (frame message) in
      let s₁ = (stream.poll_read r s).2 in
      let o₁ = (outbound.poll_next o).1 in
      let (wrote, calm_after) = calm.takes w s₁ calm_then in
      let two =
        ap (turn stream outbound inbound)
          (takes_message message messages r s o i short calm_now holds)
        ∙ writes_message w s₁ o₁ i calm_then in
      let (r', s', o', empty, ran) =
        writes_all messages (stream.read_exact 4) (stream.poll_write w s₁).2 o₁ i
          (omega (arith, law.wants_all 4, ap length (law.reads_from_nothing 4))) calm_after
          (fifo.takes o ∙ ap rest_of holds) in
      (
        r',
        s',
        o',
        empty,
        ap (λ c. (run stream outbound inbound (turns_for messages) c).1) two ∙ ran,
      )

  -- Where the channel of outgoing messages is unbounded and open, reading and writing do as they are
  -- documented to, nothing comes in and a write is done at once: two turns of `connection_loop` for
  -- each message that waits in the channel empty the channel, and what was written in them is the
  -- frames of these messages, in order.
  pub connection_loop-writes :
      (s : S) (o : O) (i : I)
      → quiet s
      → let c =
          (run stream outbound inbound
            (turns_for (fifo.contents o))
            (at (start stream outbound inbound) s o i)).1 in
        (fifo.contents c.outbound ≡ []) × (sent c.stream ≡ sent s ++ frames (fifo.contents o))
  connection_loop-writes s o i calm_now =
      let (r', s', o', empty, ran) =
        writes_all (fifo.contents o) (stream.read_exact 4) s o i
          (omega (arith, law.wants_all 4, ap length (law.reads_from_nothing 4))) calm_now refl in
      let known : Sent law fifo inbound (sent s)
          (fifo.contents o ++ queued_in (turns_for (fifo.contents o))) (at (selecting r') s' o' i) =
        subst
          (Sent law fifo inbound (sent s)
            (fifo.contents o ++ queued_in (turns_for (fifo.contents o))))
          ran (connection_loop-sends law fifo inbound (turns_for (fifo.contents o)) s i o refl) in
      let all : known.taken ≡ fifo.contents o =
        sym (append-nil known.taken)
        ∙ ap (λ q. known.taken ++ q) (sym empty)
        ∙ known.queues
        ∙ ap (λ q. fifo.contents o ++ q) (nothing_queued (fifo.contents o))
        ∙ append-nil _ in
      let wrote : sent s' ≡ sent s ++ frames (fifo.contents o) =
        sym (append-nil (sent s'))
        ∙ ap (λ q. sent s' ++ q) (sym known.owes)
        ∙ known.writes
        ∙ ap (λ q. sent s ++ frames q) all in
      rw ran (empty, wrote)
