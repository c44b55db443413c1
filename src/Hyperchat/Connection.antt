-- ===== src/Hyperchat/Connection.antt =====
-- examples/hyperchat.rs: `connection_loop`, the task of a connection, from one await to the next.
-- The futures of reading and writing are another crate's: the record `AsyncStream` is what the source
-- calls of them.
pub mod Laws
pub mod Frames
pub mod Sends
pub mod Pieces
pub mod Books
pub mod Reading
pub mod Receives
pub mod Delivers
pub mod Progress
use hyperswarm_rs.Prelude.{
  ℕ, Option, none, some, List, [], ◌∷◌, IoError, IoResult, ok, err, Poll, pending, ready,
}
use hyperswarm_rs.Channel.{Channel}
use hyperswarm_rs.Hyperchat.{from_be_bytes, frame}

-- A stream `S` with the futures `R` of `read_exact`, given the length of its buffer, and `W` of `write_all`.
pub record AsyncStream (S R W : Type 0) : Type 0 where
  pub read_exact : ℕ → R
  pub poll_read : R → S → Poll (IoResult (List ℕ)) × R × S
  pub write_all : List ℕ → W
  pub poll_write : W → S → Poll (IoResult (Unit {0})) × W × S

-- The errors with which the loop ends: an `io::Error`, a failed send, and that of its `anyhow!`.
pub data LoopError : Type 0 where
  io : IoError → LoopError
  send_failed remote_closed : LoopError

-- The await at which the loop is: the `select`, that of the message and that of the writing.
pub data Stage (R W : Type 0) : Type 0 where
  selecting reading : R → Stage R W
  writing : W → Stage R W
  ended : LoopError → Stage R W

-- The loop, with the queues of `outbound_rx` and `inbound_tx`.
pub record Connection (S R W O I : Type 0) : Type 0 where
  pub stage : Stage R W
  pub stream : S
  pub outbound : O
  pub inbound : I

-- What may happen: a turn, a message put into the queue of `outbound_tx`, and a message taken out of that of
-- `inbound_rx` by the task that forwards it.
pub data Event : Type 0 where
  turns forwards : Event
  queues : List ℕ → Event

module _ {S R W O I : Type 0} (stream : AsyncStream S R W) (outbound : Channel O (List ℕ))
    (inbound : Channel I (List ℕ)) where
  abbrev pub start : Stage R W
  start = selecting (stream.read_exact 4)

  -- The arm `Either::Right`. The future of the length is dropped.
  unfoldable pub on_outbound :
      R → Poll (Option (List ℕ)) → Connection S R W O I → Connection S R W O I
  on_outbound r pending c = record c { stage = selecting r }
  on_outbound r (ready none) c = record c { stage = ended remote_closed }
  on_outbound r (ready (some message)) c = record c {
    stage = writing (stream.write_all (frame message));
  }

  -- The arm `Either::Left`, and the poll of the channel where the length is not there yet.
  unfoldable pub on_length :
      R → Poll (IoResult (List ℕ)) → Connection S R W O I → Connection S R W O I
  on_length r pending c =
      let (received, o) = outbound.poll_next c.outbound in
      on_outbound r received (record c { outbound = o })
  on_length r (ready (ok len_buf)) c = record c {
    stage = reading (stream.read_exact (from_be_bytes len_buf));
  }
  on_length r (ready (err e)) c = record c { stage = ended (io e) }

  -- `inbound_tx.send(buf).await?`
  unfoldable pub on_sent : Option I → Connection S R W O I → Connection S R W O I
  on_sent none c = record c { stage = ended send_failed }
  on_sent (some i) c = record c { stage = start; inbound = i }

  unfoldable pub on_message :
      R → Poll (IoResult (List ℕ)) → Connection S R W O I → Connection S R W O I
  on_message r pending c = record c { stage = reading r }
  on_message r (ready (ok buf)) c = on_sent (inbound.try_send buf c.inbound) c
  on_message r (ready (err e)) c = record c { stage = ended (io e) }

  unfoldable pub on_written :
      W → Poll (IoResult (Unit {0})) → Connection S R W O I → Connection S R W O I
  on_written w pending c = record c { stage = writing w }
  on_written w (ready (ok u)) c = record c { stage = start }
  on_written w (ready (err e)) c = record c { stage = ended (io e) }

  -- The await at hand is polled, and the code after it runs to the next.
  unfoldable pub turn_at : Stage R W → Connection S R W O I → Connection S R W O I
  turn_at (selecting r) c =
      let (polled, r', s) = stream.poll_read r c.stream in
      on_length r' polled (record c { stream = s })
  turn_at (reading r) c =
      let (polled, r', s) = stream.poll_read r c.stream in
      on_message r' polled (record c { stream = s })
  turn_at (writing w) c =
      let (polled, w', s) = stream.poll_write w c.stream in
      on_written w' polled (record c { stream = s })
  turn_at (ended e) c = c

  unfoldable pub turn : Connection S R W O I → Connection S R W O I
  turn c = turn_at c.stage c

  abbrev pub queued : Option O → Connection S R W O I → Connection S R W O I
  queued none c = c
  queued (some o) c = record c { outbound = o }

  abbrev pub forwarded : Poll (Option (List ℕ)) → List (List ℕ) → List (List ℕ)
  forwarded (ready (some message)) messages = message ∷ messages
  forwarded _ messages = messages

  -- The events in turn, and the messages that are forwarded.
  unfoldable pub run : List Event → Connection S R W O I → List (List ℕ) × Connection S R W O I
  run [] c = ([], c)
  run (turns ∷ events) c = run events (turn c)
  run (queues message ∷ events) c = run events (queued (outbound.try_send message c.outbound) c)
  run (forwards ∷ events) c =
      let (received, i) = inbound.poll_next c.inbound in
      let (messages, c') = run events (record c { inbound = i }) in
      (forwarded received messages, c')
