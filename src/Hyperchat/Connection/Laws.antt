-- ===== src/Hyperchat/Connection/Laws.antt =====
-- What is relied on of the stream that `connection_loop` of examples/hyperchat.rs reads and writes.
use hyperswarm_rs.Prelude.{
  ℕ, ◌<◌, ◌≡◌, List, [], ◌++◌, IoResult, ok, err, Poll, pending, ready, length,
}
use hyperswarm_rs.Hyperchat.Connection.{AsyncStream}

-- The bytes that were taken from the stream and put into it; what the future of a read holds so far and is to
-- hold, and what that of a write has left to write.
pub record Views (S R W : Type 0) : Type 0 where
  pub read : S → List ℕ
  pub sent : S → List ℕ
  pub so_far : R → List ℕ
  pub wants : R → ℕ
  pub left : W → List ℕ

module _ {S R W : Type 0} (v : Views S R W) where
  -- A poll of a read: its result, the bytes that it took, and the future that it leaves.
  abbrev pub Reads : R → List ℕ → Poll (IoResult (List ℕ)) → R → Type 0
  Reads r bytes pending r' =
      (v.so_far r' ≡ v.so_far r ++ bytes)
      × (v.wants r' ≡ v.wants r)
      × (length (v.so_far r') < v.wants r)
  Reads r bytes (ready (ok buf)) r' = (buf ≡ v.so_far r ++ bytes) × (length buf ≡ v.wants r)
  Reads r bytes (ready (err e)) r' = Unit

  -- A poll of a write.
  abbrev pub Writes : W → List ℕ → Poll (IoResult (Unit {0})) → W → Type 0
  Writes w bytes pending w' = v.left w ≡ bytes ++ v.left w'
  Writes w bytes (ready (ok u)) w' = v.left w ≡ bytes
  Writes w bytes (ready (err e)) w' = (rest : List ℕ) × (v.left w ≡ bytes ++ rest)

-- A stream on which `read_exact` and `write_all` do as they are documented to.
pub record IsStream {S R W : Type 0} (stream : AsyncStream S R W) : Type 0 where
  pub views : Views S R W
  pub reads_from_nothing : (n : ℕ) → views.so_far (stream.read_exact n) ≡ []
  pub wants_all : (n : ℕ) → views.wants (stream.read_exact n) ≡ n
  pub writes_all : (bytes : List ℕ) → views.left (stream.write_all bytes) ≡ bytes
  pub polls_read :
      (r : R) (s : S)
      → let (polled, r', s') = stream.poll_read r s in
        (bytes : List ℕ) × (views.read s' ≡ views.read s ++ bytes)
        × (views.sent s' ≡ views.sent s)
        × Reads views r bytes polled r'
  pub polls_write :
      (w : W) (s : S)
      → let (polled, w', s') = stream.poll_write w s in
        (bytes : List ℕ) × (views.sent s' ≡ views.sent s ++ bytes)
        × (views.read s' ≡ views.read s)
        × Writes views w bytes polled w'
