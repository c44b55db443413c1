-- ===== src/Swarm/Books.antt =====
-- src/swarm.rs: the books of a swarm, on the peers found, the connections and the errors.
use hyperswarm_rs.Prelude.{
  ◌≡◌, refl, ap, ◌∙◌, none, some, List, [], ◌∷◌, ◌++◌, map, append-nil, append_assoc, ok, err,
  pending, ready, Next, arith, length, length-append,
}
use mathlib.Core.List.{map-append}
use hyperswarm_rs.Discovery.{PeerInfo, addr}
use hyperswarm_rs.Discovery.Calls.{emitted, emitted_all}
use hyperswarm_rs.Discovery.Recording
use hyperswarm_rs.Transport.{Connection}
use hyperswarm_rs.Transport.Recording.{connections, errors}
use hyperswarm_rs.Transport.Recording as TransportRecording
use hyperswarm_rs.Swarm.{Hyperswarm}

-- The swarm over a discovery and a transport that keep records.
abbrev pub Watched : Type 0 → Type 0 → Type 0 → Type 0 → Type 0
Watched D S T Q = Hyperswarm (Recording.Recorded D) (TransportRecording.Recorded S T) Q

emitted_all-append :
    (xs ys : List (Next PeerInfo)) → emitted_all (xs ++ ys) ≡ emitted_all xs ++ emitted_all ys
emitted_all-append [] ys = refl
emitted_all-append (x ∷ xs) ys = simp (emitted_all-append xs ys, append_assoc)

connections-append :
    {T : Type 0} (xs ys : List (Next (Connection T)))
    → connections (xs ++ ys) ≡ connections xs ++ connections ys
connections-append [] ys = refl
connections-append (pending ∷ xs) ys = connections-append xs ys
connections-append (ready none ∷ xs) ys = connections-append xs ys
connections-append (ready (some (ok conn)) ∷ xs) ys = ap (◌∷◌ conn) (connections-append xs ys)
connections-append (ready (some (err e)) ∷ xs) ys = connections-append xs ys

errors-append : {A : Type 0} (xs ys : List (Next A)) → errors (xs ++ ys) ≡ errors xs ++ errors ys
errors-append [] ys = refl
errors-append (pending ∷ xs) ys = errors-append xs ys
errors-append (ready none ∷ xs) ys = errors-append xs ys
errors-append (ready (some (ok a)) ∷ xs) ys = errors-append xs ys
errors-append (ready (some (err e)) ∷ xs) ys = ap (◌∷◌ e) (errors-append xs ys)

module _ {D S T Q : Type 0} where
  -- The books of a swarm whose polls have handed out the results `out`.
  pub record Balanced (out : List (Next (Connection T))) (s : Watched D S T Q) : Type 0 where
    pub dials : s.transport.dialled ≡ map addr (emitted_all s.discovery.results)
    pub connects : connections out ≡ connections s.transport.results
    pub fails : errors out ≡ errors s.discovery.results
    pub polls : length s.discovery.results ≡ length out

  -- What one poll adds to the books.
  abbrev pub Adds : Watched D S T Q → Next (Connection T) → Watched D S T Q → Type 0
  Adds s result s' =
      (found : Next PeerInfo) × (got : List (Next (Connection T))) × (s'.discovery.results
        ≡ s.discovery.results ++ found ∷ [])
      × (s'.transport.results ≡ s.transport.results ++ got)
      × (s'.transport.dialled ≡ s.transport.dialled ++ map addr (emitted found))
      × (connections (result ∷ []) ≡ connections got)
      × (errors (result ∷ []) ≡ errors (found ∷ []))

  pub Adds-Balanced :
      (out : List (Next (Connection T))) (s : Watched D S T Q) (result : Next (Connection T))
      (s' : Watched D S T Q)
      → Balanced out s
      → Adds s result s'
      → Balanced (out ++ result ∷ []) s'
  Adds-Balanced out s result s' b (found, got, d, t, dial, c, e) = record {
    dials = dial ∙ simp (d, emitted_all-append, map-append, append-nil, b.dials);
    connects = simp (t, connections-append, b.connects, c);
    fails = simp (d, errors-append, b.fails, e);
    polls = omega (
      arith,
      b.polls,
      ap length d,
      length-append s.discovery.results (found ∷ []),
      length-append out (result ∷ []),
    );
  }
