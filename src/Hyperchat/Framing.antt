-- ===== src/Hyperchat/Framing.antt =====
-- examples/hyperchat.rs: messages sent and received over one stream.
use hyperswarm_rs.Prelude.{
  ℕ, zero, suc, ◌%◌, ◌<◌, ◌≡◌, refl, ap, ◌∙◌, List, [], ◌∷◌, ◌++◌, map, append_assoc, append-nil,
  IoResult, ok, length, arith, All,
}
use hyperswarm_rs.Hyperchat.{ByteStream, to_be_bytes, from_be_bytes, frame, and_next, send, receive}

-- What is relied on of a stream that works: what is written is read, in order, and as much as is asked.
pub record IsPipe {S : Type 0} (stream : ByteStream S) : Type 0 where
  pub contents : S → List ℕ
  pub writes :
      (bytes : List ℕ) (s : S)
      → (s' : S) × (stream.write_all bytes s ≡ (ok tt, s')) × (contents s' ≡ contents s ++ bytes)
  pub reads :
      (bytes rest : List ℕ) (s : S)
      → contents s ≡ bytes ++ rest
      → (s' : S) × (stream.read_exact (length bytes) s ≡ (ok bytes, s')) × (contents s' ≡ rest)

pub from_be_bytes-to_be_bytes : (n : ℕ) → n < 4294967296 → from_be_bytes (to_be_bytes n) ≡ n
unfolding from_be_bytes to_be_bytes
from_be_bytes-to_be_bytes n h = omega arith

-- The messages in turn; the first error ends it.
unfoldable pub send_all : {S : Type 0} → ByteStream S → List (List ℕ) → S → IoResult (Unit {0}) × S
send_all stream [] s = (ok tt, s)
send_all stream (message ∷ messages) s =
    and_next (send stream message s) λ u s'. send_all stream messages s'

unfoldable pub receive_all : {S : Type 0} → ByteStream S → ℕ → S → List (IoResult (List ℕ)) × S
receive_all stream zero s = ([], s)
receive_all stream (suc n) s =
    let (message, s') = receive stream s in
    let (messages, s'') = receive_all stream n s' in (message ∷ messages, s'')

abbrev pub frames : List (List ℕ) → List ℕ
frames [] = []
frames (message ∷ messages) = frame message ++ frames messages

module _ {S : Type 0} (stream : ByteStream S) (pipe : IsPipe stream) where
  sends :
      (messages : List (List ℕ)) (s : S)
      → (s' : S) × (send_all stream messages s ≡ (ok tt, s'))
        × (pipe.contents s' ≡ pipe.contents s ++ frames messages)
  unfolding send_all send
  sends [] s = (s, refl, rw append-nil)
  sends (message ∷ messages) s =
      let (t, wrote, holds) = pipe.writes (frame message) s in
      let (s', sent, rest) = sends messages t in
      (
        s',
        ap (λ r. and_next r (λ u s''. send_all stream messages s'')) wrote ∙ sent,
        rest ∙ simp (holds, append_assoc),
      )

  receives :
      (message rest : List ℕ) (s : S)
      → length message < 4294967296
      → pipe.contents s ≡ frame message ++ rest
      → (s' : S) × (receive stream s ≡ (ok message, s')) × (pipe.contents s' ≡ rest)
  unfolding receive frame
  receives message rest s h c =
      let n = length message % 4294967296 in
      let (t, got, holds) =
        pipe.reads (to_be_bytes n) (message ++ rest) s
          (c ∙ append_assoc (to_be_bytes n) message rest) in
      let (s', read, left) = pipe.reads message rest t holds in
      let four : stream.read_exact 4 s ≡ (ok (to_be_bytes n), t) = unfold to_be_bytes in got in
      let len : from_be_bytes (to_be_bytes n) ≡ length message =
        from_be_bytes-to_be_bytes n (omega arith) ∙ omega arith in
      (
        s',
        ap (λ r. and_next r (λ len_buf u. stream.read_exact (from_be_bytes len_buf) u)) four
            ∙ ap (λ k. stream.read_exact k t) len
            ∙ read,
        left,
      )

  received :
      (messages : List (List ℕ)) (s : S)
      → All (λ message. length message < 4294967296) messages
      → pipe.contents s ≡ frames messages
      → (s' : S) × (receive_all stream (length messages) s ≡ (map ok messages, s'))
        × (pipe.contents s' ≡ [])
  unfolding receive_all
  received [] s h c = (s, refl, c)
  received (message ∷ messages) s h c =
      let (t, read, left) = receives message (frames messages) s h.0 c in
      let (s', rest, empty) = received messages t h.1 left in (s', rw (read, rest), empty)

  -- Over an empty stream in which what is written is read in order and as much as is asked: sending
  -- any messages shorter than 2^32 bytes, one after the other, succeeds, and receiving as many gives
  -- the same messages and leaves the stream empty.
  pub send_all-received :
      (messages : List (List ℕ)) (s : S)
      → All (λ message. length message < 4294967296) messages
      → pipe.contents s ≡ []
      → (t : S) × (s' : S) × (send_all stream messages s ≡ (ok tt, t))
        × (receive_all stream (length messages) t ≡ (map ok messages, s'))
        × (pipe.contents s' ≡ [])
  send_all-received messages s h c =
      let (t, sent, holds) = sends messages s in
      let (s', got, empty) = received messages t h (simp (holds, c)) in (t, s', sent, got, empty)
