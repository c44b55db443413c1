-- ===== src/Hyperchat/Connection/Sends.antt =====
-- `connection_loop` of examples/hyperchat.rs: the bytes that it writes.
use hyperswarm_rs.Prelude.{
  ℕ, ◌≡◌, refl, sym, ap, subst, ◌∙◌, Option, none, some, List, [], ◌∷◌, ◌++◌, append-nil,
  append_assoc, IoResult, ok, err, Poll, pending, ready, arith,
}
use hyperswarm_rs.Channel.{Channel, IsFifo, received, rest_of}
use hyperswarm_rs.Hyperchat.{frame}
use hyperswarm_rs.Hyperchat.Framing.{frames}
use hyperswarm_rs.Hyperchat.Connection.{
  AsyncStream, Stage, selecting, reading, writing, ended, Connection, Event, turns, forwards,
  queues, on_outbound, on_length, on_sent, on_message, on_written, start, turn_at, turn, queued,
  run,
}
use hyperswarm_rs.Hyperchat.Connection.Laws.{IsStream, Writes}
use hyperswarm_rs.Hyperchat.Connection.Frames.{snoc_writes, moved, queued_in}

module _ {S R W O I : Type 0} {stream : AsyncStream S R W} (law : IsStream stream)
    {outbound : Channel O (List ℕ)} (fifo : IsFifo outbound) (inbound : Channel I (List ℕ)) where
  open law.views use {sent, left}

  -- What is left to write, where the loop is.
  abbrev pub Owes : Stage R W → List ℕ → Type 0
  Owes (selecting r) rest = rest ≡ []
  Owes (reading r) rest = rest ≡ []
  Owes (writing w) rest = rest ≡ left w
  Owes (ended e) rest = Unit

  -- Of the messages `history`, those taken are written, but for `rest`, and the others are queued.
  pub record Sent (before : List ℕ) (history : List (List ℕ)) (c : Connection S R W O I)
      : Type 0 where
    pub taken : List (List ℕ)
    pub rest : List ℕ
    pub queues : taken ++ fifo.contents c.outbound ≡ history
    pub writes : sent c.stream ++ rest ≡ before ++ frames taken
    pub owes : Owes c.stage rest

  module _ {before : List ℕ} {history : List (List ℕ)} where
    pub longer :
        {c : Connection S R W O I} {history' : List (List ℕ)}
        → Sent before history c
        → history' ≡ history
        → Sent before history' c
    longer known e = record {
      taken = known.taken;
      rest = known.rest;
      queues = known.queues ∙ sym e;
      writes = known.writes;
      owes = known.owes;
    }

    kept :
        {c : Connection S R W O I} (c' : Connection S R W O I) (known : Sent before history c)
        → sent c'.stream ≡ sent c.stream
        → c'.outbound ≡ c.outbound
        → Owes c'.stage known.rest
        → Sent before history c'
    kept c' known same out owes = record {
      taken = known.taken;
      rest = known.rest;
      queues = rw out known.queues;
      writes = rw same known.writes;
      owes = owes;
    }

    after_outbound :
        (r : R) (c : Connection S R W O I) (taken : List (List ℕ)) (polled : Poll (Option (List ℕ)))
        (o : O) (queue : List (List ℕ))
        → polled ≡ received queue
        → fifo.contents o ≡ rest_of queue
        → taken ++ queue ≡ history
        → sent c.stream ++ [] ≡ before ++ frames taken
        → Sent before history
            (on_outbound stream outbound inbound r polled (record c { outbound = o }))
    unfolding on_outbound
    after_outbound r c taken pending o [] e f g h = record {
      taken = taken;
      rest = [];
      queues = rw f g;
      writes = h;
      owes = refl;
    }
    after_outbound r c taken pending o (m ∷ queue) e f g h = absurd cc
    after_outbound r c taken (ready none) o [] e f g h = absurd cc
    after_outbound r c taken (ready none) o (m ∷ queue) e f g h = absurd cc
    after_outbound r c taken (ready (some message)) o [] e f g h = absurd cc
    after_outbound r c taken (ready (some message)) o (m ∷ queue) e f g h =
        let same : message ≡ m = ground arith in
        record {
          taken = taken ++ message ∷ [];
          rest = frame message;
          queues = rw (f, same, append_assoc) g;
          writes = snoc_writes before (sent c.stream) taken message h;
          owes = sym (law.writes_all (frame message));
        }

    after_length :
        (r r' : R) (c : Connection S R W O I) (polled : Poll (IoResult (List ℕ)))
        → Sent before history (record c { stage = selecting r })
        → Sent before history (on_length stream outbound inbound r' polled c)
    unfolding on_length
    after_length r r' c pending known =
        after_outbound r' c known.taken _ _ (fifo.contents c.outbound) (fifo.receives c.outbound)
          (fifo.takes c.outbound) known.queues
          (ap (λ rest. sent c.stream ++ rest) (sym known.owes) ∙ known.writes)
    after_length r r' c (ready (ok len_buf)) known = kept _ known refl refl known.owes
    after_length r r' c (ready (err e)) known = kept _ known refl refl tt

    after_message :
        (r r' : R) (c : Connection S R W O I) (polled : Poll (IoResult (List ℕ)))
        → Sent before history (record c { stage = reading r })
        → Sent before history (on_message stream outbound inbound r' polled c)
    unfolding on_message on_sent
    after_message r r' c pending known = kept _ known refl refl known.owes
    after_message r r' c (ready (err e)) known = kept _ known refl refl tt
    after_message r r' c (ready (ok buf)) known =
        elim (inbound.try_send buf c.inbound)
          as (λ sent_to. Sent before history (on_sent stream outbound inbound sent_to c)) [
            | none ↦ kept _ known refl refl tt
            | some i ↦ kept _ known refl refl known.owes
          ]

    after_written :
        (w w' : W) (c : Connection S R W O I) (s : S) (polled : Poll (IoResult (Unit {0})))
        (bytes : List ℕ)
        → Sent before history (record c { stage = writing w })
        → sent s ≡ sent c.stream ++ bytes
        → Writes law.views w bytes polled w'
        → Sent before history
            (on_written stream outbound inbound w' polled (record c { stream = s }))
    unfolding on_written
    after_written w w' c s pending bytes known wrote more = record {
      taken = known.taken;
      rest = left w';
      queues = known.queues;
      writes = moved (sent c.stream) bytes _ wrote (known.owes ∙ more) known.writes;
      owes = refl;
    }
    after_written w w' c s (ready (ok u)) bytes known wrote more = record {
      taken = known.taken;
      rest = [];
      queues = known.queues;
      writes =
          moved (sent c.stream) bytes _ wrote (known.owes ∙ more ∙ sym (append-nil bytes))
            known.writes;
      owes = refl;
    }
    after_written w w' c s (ready (err e)) bytes known wrote (rest, more) = record {
      taken = known.taken;
      rest = rest;
      queues = known.queues;
      writes = moved (sent c.stream) bytes _ wrote (known.owes ∙ more) known.writes;
      owes = tt;
    }

    after_turn :
        (stage : Stage R W) (c : Connection S R W O I)
        → Sent before history (record c { stage = stage })
        → c.stage ≡ stage
        → Sent before history (turn_at stream outbound inbound stage c)
    unfolding turn_at
    after_turn (selecting r) c known at =
        let (bytes, took, same, more) = law.polls_read r c.stream in
        after_length r _ _ (stream.poll_read r c.stream).0 (kept _ known same refl known.owes)
    after_turn (reading r) c known at =
        let (bytes, took, same, more) = law.polls_read r c.stream in
        after_message r _ _ (stream.poll_read r c.stream).0 (kept _ known same refl known.owes)
    after_turn (writing w) c known at =
        let (bytes, wrote, same, more) = law.polls_write w c.stream in
        after_written w _ c _ (stream.poll_write w c.stream).0 bytes known wrote more
    after_turn (ended e) c known at =
        kept c known refl refl (subst (λ t. Owes t known.rest) (sym at) tt)

  pub run-Sent :
      (events : List Event) (c : Connection S R W O I) {before : List ℕ} {history : List (List ℕ)}
      → Sent before history c
      → Sent before (history ++ queued_in events) (run stream outbound inbound events c).1
  unfolding run turn
  run-Sent [] c known = longer known (append-nil _)
  run-Sent (turns ∷ events) c known = run-Sent events _ (after_turn c.stage c known refl)
  run-Sent (forwards ∷ events) c known = run-Sent events _ (kept _ known refl refl known.owes)
  run-Sent (queues message ∷ events) c {before} {history} known =
      let (o, accepted, holds) = fifo.sends message c.outbound in
      subst
        (λ result.
          Sent before (history ++ message ∷ queued_in events)
            (run stream outbound inbound events (queued stream outbound inbound result c)).1)
        (sym accepted)
        (longer
          (run-Sent events (record c { outbound = o }) {before = before}
            {history = history ++ message ∷ []}
            (record {
              taken = known.taken;
              rest = known.rest;
              queues =
                  ap (λ q. known.taken ++ q) holds
                  ∙ sym (append_assoc known.taken _ _)
                  ∙ ap (λ q. q ++ message ∷ []) known.queues;
              writes = known.writes;
              owes = known.owes;
            }))
          (sym (append_assoc history (message ∷ []) (queued_in events))))

  -- Where the channel of outgoing messages is unbounded and open, and reading and writing do as they
  -- are documented to: after any run of `connection_loop`, what it has written, followed by what it
  -- has left to write, which is nothing unless it is writing or has ended, is the frames of the
  -- messages that it has taken, and these, followed by those that wait in the channel, are the
  -- messages that were in the channel or were put into it, in order.
  pub connection_loop-sends :
      (events : List Event) (s : S) (i : I) {c : Connection S R W O I} {forwarded : List (List ℕ)}
      (o : O)
      → run stream outbound inbound events
          (record { stage = start stream outbound inbound; stream = s; outbound = o; inbound = i })
        ≡ (forwarded, c)
      → Sent (sent s) (fifo.contents o ++ queued_in events) c
  connection_loop-sends events s i {c} o e =
      subst
        (λ (result : List (List ℕ) × Connection S R W O I).
          Sent (sent s) (fifo.contents o ++ queued_in events) result.1)
        e
        (run-Sent events _
          (record { taken = []; rest = []; queues = refl; writes = refl; owes = refl }))
