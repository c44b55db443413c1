-- ===== src/Tests/HyperchatTests.antt =====
-- Runs of the model of examples/hyperchat.rs.
use hyperswarm_rs.Prelude.{
  ℕ, zero, suc, ◌≡◌, refl, List, [], ◌∷◌, ◌++◌, map, IoResult, ok, err, external, length, arith,
}
use hyperswarm_rs.Hyperchat.{ByteStream}
use hyperswarm_rs.Hyperchat.Framing.{IsPipe, send_all, receive_all, send_all-received}

-- A pipe as the bytes that are in it.
abbrev with_byte : ℕ → IoResult (List ℕ) × List ℕ → IoResult (List ℕ) × List ℕ
with_byte b (ok bytes, s) = (ok (b ∷ bytes), s)
with_byte b (err e, s) = (err e, s)

abbrev take_bytes : ℕ → List ℕ → IoResult (List ℕ) × List ℕ
take_bytes zero s = (ok [], s)
take_bytes (suc n) [] = (err (external 0), [])
take_bytes (suc n) (b ∷ s) = with_byte b (take_bytes n s)

abbrev bytes_pipe : ByteStream (List ℕ)
bytes_pipe = record { read_exact = take_bytes; write_all = λ bytes s. (ok tt, s ++ bytes) }

take_bytes-append :
    (bytes rest : List ℕ) → take_bytes (length bytes) (bytes ++ rest) ≡ (ok bytes, rest)
take_bytes-append [] rest = refl
take_bytes-append (b ∷ bytes) rest = rw (take_bytes-append bytes rest) refl

abbrev bytes_pipe-IsPipe : IsPipe bytes_pipe
bytes_pipe-IsPipe = record {
  contents = λ s. s;
  writes = λ bytes s. (s ++ bytes, refl, refl);
  reads = λ bytes rest s c. (rest, rw (c, take_bytes-append bytes rest) refl, refl);
}

abbrev messages : List (List ℕ)
messages = (104 ∷ 105 ∷ []) ∷ [] ∷ (33 ∷ []) ∷ []

send_all-received_example :
    (t : List ℕ) × (s' : List ℕ) × (send_all bytes_pipe messages [] ≡ (ok tt, t))
    × (receive_all bytes_pipe (length messages) t ≡ (map ok messages, s'))
    × (s' ≡ [])
send_all-received_example =
    send_all-received bytes_pipe bytes_pipe-IsPipe messages []
      (omega arith, (omega arith, (omega arith, tt))) refl
