-- ===== src/Programs/Simple/Talks.antt =====
-- examples/simple.rs: what the task of a connection prints.
use hyperswarm_rs.Prelude.{
  ℕ, zero, suc, ◌≤◌, ◌<◌, ◌≡◌, ◌⊎◌, inl, inr, refl, sym, ap, ◌∙◌, Option, none, some, List, [], ◌∷◌,
  ◌++◌, map, append_assoc, String, ok, Outcome, returns, panics, arith, length, length-append,
  Option-cases,
}
use hyperswarm_rs.Prelude.Outcomes
use hyperswarm_rs.Prelude.Outcomes.{chain_returns}
use hyperswarm_rs.Programs.Simple.{
  TextStream, Line, message, close, prepend, on_read, read_loop, on_connection,
}

-- A stream that works, until the other side closes it: `contents` is what comes before that. A read gives some of
-- it, at most as much as is asked for, and nothing only at the end.
pub record IsOpen {S : Type 0} (stream : TextStream S) : Type 0 where
  pub contents : S → List ℕ
  pub writes :
      (bytes : List ℕ) (s : S)
      → (s' : S) × (stream.write_all bytes s ≡ (ok tt, s')) × (contents s' ≡ contents s)
  pub reads :
      (n : ℕ) (s : S)
      → (bytes : List ℕ) × (s' : S) × (stream.read n s ≡ (ok bytes, s'))
        × (contents s ≡ bytes ++ contents s')
        × (length bytes ≤ n)
  pub ends : (n : ℕ) (s : S) {s' : S} → stream.read n s ≡ (ok [], s') → 0 < n → contents s ≡ []

-- The bytes of texts.
abbrev pub bytes_of : (String → List ℕ) → List String → List ℕ
bytes_of as_bytes [] = []
bytes_of as_bytes (text ∷ texts) = as_bytes text ++ bytes_of as_bytes texts

module _ {S : Type 0} (stream : TextStream S) (law : IsOpen stream)
    (from_utf8 : List ℕ → Option String) (as_bytes : String → List ℕ)
    (decodes : (bytes : List ℕ) (text : String)
      → from_utf8 bytes ≡ some text
      → as_bytes text ≡ bytes) where
  open law use {contents}

  -- All that comes is printed, in order, and then the end; or a piece of it is no text, and the task panics.
  abbrev pub Prints : List ℕ → Outcome (List Line × S) → Type 0
  Prints coming result =
      ((texts : List String) × (s' : S) × (result ≡ returns (map message texts ++ close ∷ [], s'))
        × (bytes_of as_bytes texts ≡ coming))
      ⊎ ((before bytes after : List ℕ) × (coming ≡ before ++ (bytes ++ after))
          × (from_utf8 bytes ≡ none)
          × (result ≡ panics))

  one_more :
      (bytes coming : List ℕ) (text : String) (again : Outcome (List Line × S))
      → from_utf8 bytes ≡ some text
      → Prints coming again
      → Prints (bytes ++ coming) (Outcomes.◌>>=◌ again (prepend (message text)))
  one_more bytes coming text again u (inl (texts, s', e, all)) = inl (
    text ∷ texts,
    s',
    rw e refl,
    ap (λ xs. xs ++ bytes_of as_bytes texts) (decodes bytes text u) ∙ ap (λ xs. bytes ++ xs) all,
  )
  one_more bytes coming text again u (inr (before, wrong, after, splits, none_of, e)) = inr (
    bytes ++ before,
    wrong,
    after,
    ap (λ xs. bytes ++ xs) splits ∙ sym (append_assoc bytes before (wrong ++ after)),
    none_of,
    rw e refl,
  )

  on_text :
      (b : ℕ) (bytes coming : List ℕ) (s' : S) (again : S → Outcome (List Line × S))
      → Prints coming (again s')
      → Prints (b ∷ bytes ++ coming) (on_read stream from_utf8 again (ok (b ∷ bytes), s'))
  unfolding on_read
  on_text b bytes coming s' again rest = elim (Option-cases (from_utf8 (b ∷ bytes))) [
    | inl u ↦ inr ([], b ∷ bytes, coming, refl, u, rw u refl)
    | inr (text, u) ↦ rw u (one_more (b ∷ bytes) coming text (again s') u rest)
  ]

  on_bytes :
      (bytes : List ℕ) (s s' : S) (fuel : ℕ)
      → stream.read 100 s ≡ (ok bytes, s')
      → contents s ≡ bytes ++ contents s'
      → length (contents s) < suc fuel
      → ((t : S)
          → length (contents t) < fuel
          → Prints (contents t) (read_loop stream from_utf8 fuel t))
      → Prints
          (contents s)
          (on_read stream from_utf8 (read_loop stream from_utf8 fuel) (ok bytes, s'))
  unfolding on_read
  on_bytes [] s s' fuel e holds enough again =
      inl ([], s', refl, sym (law.ends 100 s e (omega arith)))
  on_bytes (b ∷ bytes) s s' fuel e holds enough again = rw holds (
      on_text b bytes (contents s') s' (read_loop stream from_utf8 fuel) (
        again s' (omega (arith, enough, ap length holds, length-append (b ∷ bytes) (contents s')))))

  read_loop-Prints :
      (fuel : ℕ) (s : S)
      → length (contents s) < fuel
      → Prints (contents s) (read_loop stream from_utf8 fuel s)
  unfolding read_loop
  read_loop-Prints zero s enough = absurd (omega arith)
  read_loop-Prints (suc fuel) s enough =
      let (bytes, s', e, holds, few) = law.reads 100 s in
      rw e (on_bytes bytes s s' fuel e holds enough (read_loop-Prints fuel))

  -- For a stream that takes the greeting and has some bytes to read until the other side closes it,
  -- and more rounds of the loop than there are bytes: the task of a connection either ends, having
  -- printed texts whose bytes are all those that came, in order, and then `close`, or panics, where
  -- some piece of the bytes is not valid UTF-8.
  pub on_connection-Prints :
      (greeting : List ℕ) (fuel : ℕ) (s : S)
      → length (contents s) < fuel
      → Prints (contents s) (on_connection stream from_utf8 fuel greeting s)
  unfolding on_connection
  on_connection-Prints greeting fuel s enough =
      let (s', wrote, same) = law.writes greeting s in
      rw (wrote, sym same) (read_loop-Prints fuel s' (rw same enough))
