-- ===== src/Discovery/Drives.antt =====
-- Runs of a discovery, an implementation of the trait of src/discovery/mod.rs, put one after the other.
use hyperswarm_rs.Prelude.{
  ◌≡◌, refl, List, [], ◌∷◌, ◌++◌, append-nil, append_assoc, Next, returns, arith, length,
}
use hyperswarm_rs.Prelude.Outcomes.{>>=-eq-returns, returns-injective}
use hyperswarm_rs.Discovery.{Topic, PeerInfo, Discovery}
use hyperswarm_rs.Discovery.Calls.{Call, looks_up, announces, polls, count_polls, run}
use hyperswarm_rs.Discovery.Recording.{Recorded, recording}

-- The calls that ask for something.
abbrev pub asked : List Call → List Call
asked [] = []
asked (looks_up topic ∷ calls) = looks_up topic ∷ asked calls
asked (announces topic ∷ calls) = announces topic ∷ asked calls
asked (polls ∷ calls) = asked calls

module _ {D : Type 0} (d : Discovery D) where
  pub run-append :
      (xs ys : List Call) (s t u : D) (first rest : List (Next PeerInfo))
      → run d xs s ≡ returns (first, t)
      → run d ys t ≡ returns (rest, u)
      → run d (xs ++ ys) s ≡ returns (first ++ rest, u)
  unfolding run
  run-append [] ys s t u first rest e f = ground (arith, e, f)
  run-append (looks_up topic ∷ xs) ys s t u first rest e f =
      let p = >>=-eq-returns (d.lookup topic s) _ e in
      rw p.1 (run-append xs ys p.0 t u first rest p.2 f)
  run-append (announces topic ∷ xs) ys s t u first rest e f =
      let p = >>=-eq-returns (d.announce topic s) _ e in
      rw p.1 (run-append xs ys p.0 t u first rest p.2 f)
  run-append (polls ∷ xs) ys s t u first rest e f =
      let p = >>=-eq-returns (d.poll_next s) _ e in
      let q = >>=-eq-returns (run d xs p.0.1) _ p.2 in
      let tail = run-append xs ys p.0.1 q.0.1 u q.0.0 rest q.1 (ground arith) in
      ground (arith, p.1, q.2, tail)

  -- Some run leads from a state to another.
  abbrev pub Drives : D → D → Type 0
  Drives s t =
      (calls : List Call) × (results : List (Next PeerInfo)) × (run d calls s
        ≡ returns (results, t))

  pub Drives-refl : (s : D) → Drives s s
  unfolding run
  Drives-refl s = ([], [], refl)

  pub Drives-trans : (s t u : D) → Drives s t → Drives t u → Drives s u
  Drives-trans s t u (xs, first, e) (ys, rest, f) =
      (xs ++ ys, first ++ rest, run-append xs ys s t u first rest e f)

  pub Drives-lookup : (topic : Topic) (s t : D) → d.lookup topic s ≡ returns t → Drives s t
  unfolding run
  Drives-lookup topic s t e = (looks_up topic ∷ [], [], ground arith)

  pub Drives-announce : (topic : Topic) (s t : D) → d.announce topic s ≡ returns t → Drives s t
  unfolding run
  Drives-announce topic s t e = (announces topic ∷ [], [], ground arith)

  pub Drives-poll :
      (s t : D) (result : Next PeerInfo) → d.poll_next s ≡ returns (result, t) → Drives s t
  unfolding run
  Drives-poll s t result e = (polls ∷ [], result ∷ [], ground arith)

  -- The record of a run is the run of what is recorded.
  pub run-recorded :
      (calls : List Call) (r : Recorded D) {results : List (Next PeerInfo)} {r' : Recorded D}
      → run (recording d) calls r ≡ returns (results, r')
      → (r'.results ≡ r.results ++ results)
        × (r'.log ≡ r.log ++ asked calls)
        × (run d calls r.inner ≡ returns (results, r'.inner))
  unfolding run
  run-recorded [] r e =
      (ground (arith, append-nil r.results), ground (arith, append-nil r.log), ground arith)
  run-recorded (looks_up topic ∷ calls) r e =
      let p = >>=-eq-returns ((recording d).lookup topic r) _ e in
      let q = >>=-eq-returns (d.lookup topic r.inner) _ p.1 in
      let (results, log, ran) = run-recorded calls p.0 p.2 in
      (
        ground arith,
        ground (arith, append_assoc r.log (looks_up topic ∷ []) (asked calls)),
        ground arith,
      )
  run-recorded (announces topic ∷ calls) r e =
      let p = >>=-eq-returns ((recording d).announce topic r) _ e in
      let q = >>=-eq-returns (d.announce topic r.inner) _ p.1 in
      let (results, log, ran) = run-recorded calls p.0 p.2 in
      (
        ground arith,
        ground (arith, append_assoc r.log (announces topic ∷ []) (asked calls)),
        ground arith,
      )
  run-recorded (polls ∷ calls) r e =
      let p = >>=-eq-returns ((recording d).poll_next r) _ e in
      let q = >>=-eq-returns (d.poll_next r.inner) _ p.1 in
      let w = >>=-eq-returns (run (recording d) calls p.0.1) _ p.2 in
      let (results, log, ran) = run-recorded calls p.0.1 w.1 in
      (ground (arith, append_assoc r.results (p.0.0 ∷ []) w.0.0), ground arith, ground arith)

  -- A run gives one result for each poll.
  pub length-run :
      (calls : List Call) (s : D) {results : List (Next PeerInfo)} {s' : D}
      → run d calls s ≡ returns (results, s')
      → length results ≡ count_polls calls
  unfolding run
  length-run [] s e = ground arith
  length-run (looks_up topic ∷ calls) s e =
      let p = >>=-eq-returns (d.lookup topic s) _ e in length-run calls p.0 p.2
  length-run (announces topic ∷ calls) s e =
      let p = >>=-eq-returns (d.announce topic s) _ e in length-run calls p.0 p.2
  length-run (polls ∷ calls) s e =
      let p = >>=-eq-returns (d.poll_next s) _ e in
      let q = >>=-eq-returns (run d calls p.0.1) _ p.2 in
      ground (arith, length-run calls p.0.1 q.1, returns-injective q.2)
