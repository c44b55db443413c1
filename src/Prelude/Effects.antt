-- ===== src/Prelude/Effects.antt =====
-- What the asynchronous interfaces of the standard library return: `Poll`, `io::Error`,
-- `io::Result`, and the items of a polled `Stream` of results.
use Prim.Native.Nat.{ℕ}
use Prim.Native.String.{String}
use mathlib.Core.Option.{Option}

-- std::task::Poll
pub data Poll {ℓ} (A : Type ℓ) : Type ℓ where
  pending : Poll A
  ready : A → Poll A

-- The kinds of io::Error that the source makes itself.
pub data ErrorKind : Type 0 where
  invalid_input other : ErrorKind

-- io::Error: `io::Error::new(kind, text)`, or an error that comes from outside, by its number.
pub data IoError : Type 0 where
  new : ErrorKind → String → IoError
  external : ℕ → IoError

pub data IoResult {ℓ} (A : Type ℓ) : Type ℓ where
  ok : A → IoResult A
  err : IoError → IoResult A

-- What polling a stream of `io::Result<T>` gives.
abbrev pub Next : Type 0 → Type 0
Next A = Poll (Option (IoResult A))

-- Rust's `panic!`, and a loop that was cut off because the fuel of the model ran out.
pub data Outcome {ℓ} (A : Type ℓ) : Type ℓ where
  returns : A → Outcome A
  panics : Outcome A
  out_of_fuel : Outcome A
