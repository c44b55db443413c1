-- ===== src/Hyperchat.antt =====
-- examples/hyperchat.rs: messages over a connection, each behind its length.
-- Reading and writing to the end are futures': the record `ByteStream` is what the source calls of them.
pub mod Framing
pub mod Connection
pub mod Broadcast
pub mod Main
use hyperswarm_rs.Prelude.{
  ℕ, zero, suc, ◌+◌, ◌*◌, ◌/◌, ◌%◌, ◌^◌, List, [], ◌∷◌, ◌++◌, IoResult, ok, err, length,
}

-- AsyncReadExt::read_exact, which is given the length of the buffer, and AsyncWriteExt::write_all.
pub record ByteStream (S : Type 0) : Type 0 where
  pub read_exact : ℕ → S → IoResult (List ℕ) × S
  pub write_all : List ℕ → S → IoResult (Unit {0}) × S

-- u32::to_be_bytes
unfoldable pub to_be_bytes : ℕ → List ℕ
to_be_bytes n = n / 16777216 % 256 ∷ n / 65536 % 256 ∷ n / 256 % 256 ∷ n % 256 ∷ []

-- u32::from_be_bytes, of four bytes.
unfoldable pub from_be_bytes : List ℕ → ℕ
from_be_bytes (a ∷ b ∷ c ∷ d ∷ []) = a * 16777216 + b * 65536 + c * 256 + d
from_be_bytes _ = 0

-- The buffer that is written for a message; `as u32` wraps around.
unfoldable pub frame : List ℕ → List ℕ
frame message = to_be_bytes (length message % 2 ^ 32) ++ message

-- The `?` operator after an operation on the stream.
abbrev pub and_next : {A B S : Type 0} → IoResult A × S → (A → S → IoResult B × S) → IoResult B × S
and_next (ok a, s) k = k a s
and_next (err e, s) k = (err e, s)

module _ {S : Type 0} (stream : ByteStream S) where
  -- The arm `Either::Right` of `connection_loop` for a message.
  unfoldable pub send : List ℕ → S → IoResult (Unit {0}) × S
  send message s = stream.write_all (frame message) s

  -- The arm `Either::Left`: the message that follows the length that was read.
  unfoldable pub receive : S → IoResult (List ℕ) × S
  receive s =
      and_next (stream.read_exact 4 s) λ len_buf s'. stream.read_exact (from_be_bytes len_buf) s'
