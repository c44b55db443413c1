-- ===== src/Hyperchat/Connection/Books.antt =====
-- The books of what `connection_loop` of examples/hyperchat.rs has read.
use hyperswarm_rs.Prelude.{
  ℕ, ◌+◌, ◌<◌, ◌≡◌, sym, ap, ◌∙◌, List, [], ◌∷◌, ◌++◌, append-nil, append_assoc, arith, length, All,
  All-append,
}
use hyperswarm_rs.Channel.{Channel, IsFifo}
use hyperswarm_rs.Hyperchat.{from_be_bytes}
use hyperswarm_rs.Hyperchat.Connection.{
  AsyncStream, Stage, selecting, reading, writing, ended, Connection,
}
use hyperswarm_rs.Hyperchat.Connection.Laws.{IsStream}
use hyperswarm_rs.Hyperchat.Connection.Pieces.{
  Piece, bytes_of, bodies, IsPiece, bytes_of-append, bodies-append, given_ups, given_ups-append,
}

module _ {S R W O I : Type 0} {stream : AsyncStream S R W} (law : IsStream stream)
    {outbound : Channel O (List ℕ)} (queue : IsFifo outbound) {inbound : Channel I (List ℕ)}
    (fifo : IsFifo inbound) where
  open law.views use {read, so_far, wants}

  -- The bytes that are read but are no piece yet, where the loop is.
  abbrev pub Holds : Stage R W → List ℕ → Type 0
  Holds (selecting r) part = (part ≡ so_far r) × (wants r ≡ 4) × (length part < 4)
  Holds (reading r) part =
      (header : List ℕ) × (part ≡ header ++ so_far r)
      × (length header ≡ 4)
      × (wants r ≡ from_be_bytes header)
  Holds (writing w) part = part ≡ []
  Holds (ended e) part = Unit

  -- The bytes read fall into pieces, their messages, after `before`, are those given on, and of the `asked`
  -- messages that are to be sent each that is taken gives up a length.
  pub record Got (unread : List ℕ) (before given : List (List ℕ)) (asked : ℕ)
      (c : Connection S R W O I) : Type 0 where
    pub pieces : List Piece
    pub part : List ℕ
    pub pieces-IsPiece : All IsPiece pieces
    pub reads : read c.stream ≡ unread ++ (bytes_of pieces ++ part)
    pub gives : given ++ fifo.contents c.inbound ≡ before ++ bodies pieces
    pub counts : given_ups pieces + length (queue.contents c.outbound) ≡ asked
    pub holds : Holds c.stage part

  module _ {unread : List ℕ} {before given : List (List ℕ)} {asked : ℕ} where
    pub kept :
        {c : Connection S R W O I} (c' : Connection S R W O I)
        (known : Got unread before given asked c)
        → read c'.stream ≡ read c.stream
        → queue.contents c'.outbound ≡ queue.contents c.outbound
        → c'.inbound ≡ c.inbound
        → Holds c'.stage known.part
        → Got unread before given asked c'
    kept c' known same out on holds = record {
      pieces = known.pieces;
      part = known.part;
      pieces-IsPiece = known.pieces-IsPiece;
      reads = same ∙ known.reads;
      gives = rw on known.gives;
      counts = rw out known.counts;
      holds = holds;
    }

    -- The bytes at hand become a piece.
    pub cut :
        {c : Connection S R W O I} (c' : Connection S R W O I)
        (known : Got unread before given asked c) (piece : Piece)
        → IsPiece piece
        → bytes_of (piece ∷ []) ≡ known.part
        → read c'.stream ≡ read c.stream
        → fifo.contents c'.inbound ≡ fifo.contents c.inbound ++ bodies (piece ∷ [])
        → given_ups (piece ∷ []) + length (queue.contents c'.outbound)
          ≡ length (queue.contents c.outbound)
        → Holds c'.stage []
        → Got unread before given asked c'
    cut c' known piece is all same on fewer holds = record {
      pieces = known.pieces ++ piece ∷ [];
      part = [];
      pieces-IsPiece = All-append IsPiece known.pieces (piece ∷ []) known.pieces-IsPiece (is, tt);
      reads =
          same
          ∙ known.reads
          ∙ ap (λ bytes. unread ++ bytes)
              (ap (λ bytes. bytes_of known.pieces ++ bytes) (sym all)
                ∙ sym (bytes_of-append known.pieces (piece ∷ []))
                ∙ sym (append-nil _));
      gives =
          ap (λ q. given ++ q) on
          ∙ sym (append_assoc given _ _)
          ∙ ap (λ q. q ++ bodies (piece ∷ [])) known.gives
          ∙ append_assoc before _ _
          ∙ ap (λ q. before ++ q) (sym (bodies-append known.pieces (piece ∷ [])));
      counts = omega (arith, given_ups-append known.pieces (piece ∷ []), known.counts);
      holds = holds;
    }

    -- More bytes are read.
    unfoldable pub more :
        {c : Connection S R W O I} (c' : Connection S R W O I)
        (known : Got unread before given asked c) (bytes : List ℕ)
        → read c'.stream ≡ read c.stream ++ bytes
        → queue.contents c'.outbound ≡ queue.contents c.outbound
        → c'.inbound ≡ c.inbound
        → Holds c'.stage (known.part ++ bytes)
        → Got unread before given asked c'
    more c' known bytes took out on holds = record {
      pieces = known.pieces;
      part = known.part ++ bytes;
      pieces-IsPiece = known.pieces-IsPiece;
      reads =
          took
          ∙ ap (λ all. all ++ bytes) known.reads
          ∙ append_assoc unread _ bytes
          ∙ ap (λ all. unread ++ all) (append_assoc (bytes_of known.pieces) known.part bytes);
      gives = rw on known.gives;
      counts = rw out known.counts;
      holds = holds;
    }
