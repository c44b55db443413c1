-- ===== src/Hyperchat/Connection/Pieces.antt =====
-- The bytes that `connection_loop` of examples/hyperchat.rs reads, in pieces.
use hyperswarm_rs.Prelude.{ℕ, ◌+◌, ◌<◌, ◌≡◌, refl, List, [], ◌∷◌, ◌++◌, append_assoc, arith, length}
use hyperswarm_rs.Hyperchat.{from_be_bytes}

-- What the bytes that are read fall into: a message behind its length, or the bytes of a length that is given
-- up when a message is to be sent.
pub data Piece : Type 0 where
  message : List ℕ → List ℕ → Piece
  given_up : List ℕ → Piece

abbrev pub bytes_of : List Piece → List ℕ
bytes_of [] = []
bytes_of (message header body ∷ pieces) = header ++ (body ++ bytes_of pieces)
bytes_of (given_up bytes ∷ pieces) = bytes ++ bytes_of pieces

abbrev pub bodies : List Piece → List (List ℕ)
bodies [] = []
bodies (message header body ∷ pieces) = body ∷ bodies pieces
bodies (given_up bytes ∷ pieces) = bodies pieces

abbrev pub IsPiece : Piece → Type 0
IsPiece (message header body) = (length header ≡ 4) × (from_be_bytes header ≡ length body)
IsPiece (given_up bytes) = length bytes < 4

pub bytes_of-append : (xs ys : List Piece) → bytes_of (xs ++ ys) ≡ bytes_of xs ++ bytes_of ys
bytes_of-append [] ys = refl
bytes_of-append (message header body ∷ xs) ys = simp (bytes_of-append xs ys, append_assoc)
bytes_of-append (given_up bytes ∷ xs) ys = simp (bytes_of-append xs ys, append_assoc)

pub bodies-append : (xs ys : List Piece) → bodies (xs ++ ys) ≡ bodies xs ++ bodies ys
bodies-append [] ys = refl
bodies-append (message header body ∷ xs) ys = simp (bodies-append xs ys)
bodies-append (given_up bytes ∷ xs) ys = bodies-append xs ys

-- How many lengths are given up.
abbrev pub given_ups : List Piece → ℕ
given_ups [] = 0
given_ups (message header body ∷ pieces) = given_ups pieces
given_ups (given_up bytes ∷ pieces) = given_ups pieces + 1

pub given_ups-append : (xs ys : List Piece) → given_ups (xs ++ ys) ≡ given_ups xs + given_ups ys
given_ups-append [] ys = omega arith
given_ups-append (message header body ∷ xs) ys = given_ups-append xs ys
given_ups-append (given_up bytes ∷ xs) ys = omega (arith, given_ups-append xs ys)
