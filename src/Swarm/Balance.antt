-- ===== src/Swarm/Balance.antt =====
-- src/swarm.rs: the books of a swarm over its operations.
use hyperswarm_rs.Prelude.{
  ℕ, ◌≡◌, refl, sym, ap, ◌∙◌, none, some, List, [], ◌∷◌, ◌++◌, append-nil, append_assoc, ok, err,
  pending, ready, Next, returns, arith, length,
}
use hyperswarm_rs.Prelude.Outcomes.{>>=-eq-returns, returns-injective, subst_returns}
use hyperswarm_rs.Net.{SocketAddr}
use hyperswarm_rs.Channel.{Channel}
use hyperswarm_rs.Discovery.{PeerInfo, Discovery}
use hyperswarm_rs.Discovery.Recording
use hyperswarm_rs.Transport.{Connection, Transport}
use hyperswarm_rs.Transport.Recording.{connections, errors}
use hyperswarm_rs.Transport.Recording as TransportRecording
use hyperswarm_rs.Swarm.{
  ConfigureCommand, bind, handed, configure, handle_configure, poll_commands, poll_transport,
  on_discovered, poll_discovery, poll_next,
}
use hyperswarm_rs.Swarm.Calls.{Call, configures, sends, polls, run}
use hyperswarm_rs.Swarm.Books.{Watched, Balanced, Adds, Adds-Balanced}
use hyperswarm_rs.Swarm.Quiet.{Quiet, configure-Quiet, poll_commands-Quiet, handle_configure-Quiet}

connections-handed :
    {T : Type 0} (r : Next (Connection T)) → connections (handed r ∷ []) ≡ connections (r ∷ [])
connections-handed pending = refl
connections-handed (ready none) = refl
connections-handed (ready (some (ok conn))) = refl
connections-handed (ready (some (err e))) = refl

errors-handed : {T : Type 0} (r : Next (Connection T)) → errors (handed r ∷ []) ≡ []
errors-handed pending = refl
errors-handed (ready none) = refl
errors-handed (ready (some (ok conn))) = refl
errors-handed (ready (some (err e))) = refl

module _ {D S T Q : Type 0} (d : Discovery D) (t : Transport S T)
    (channel : Channel Q ConfigureCommand) where
  poll_transport-Adds :
      (s : Watched D S T Q) {result : Next (Connection T)} {s' : Watched D S T Q}
      → poll_transport (Recording.recording d) (TransportRecording.recording t) channel s
        ≡ returns (result, s')
      → (got : List (Next (Connection T))) × (s'.discovery ≡ s.discovery)
        × (s'.transport.results ≡ s.transport.results ++ got)
        × (s'.transport.dialled ≡ s.transport.dialled)
        × (connections (result ∷ []) ≡ connections got)
        × (errors (result ∷ []) ≡ [])
  unfolding poll_transport
  poll_transport-Adds s e =
      let p = >>=-eq-returns ((TransportRecording.recording t).poll_next s.transport) _ e in
      let q = TransportRecording.poll_next-recorded t s.transport p.1 in
      (
        p.0.0 ∷ [],
        ground (arith, p.2),
        ground (arith, p.2, q.1),
        ground (arith, p.2, q.0),
        ap (λ r. connections (r ∷ [])) (sym (returns-injective p.2).0) ∙ connections-handed p.0.0,
        ap (λ r. errors (r ∷ [])) (sym (returns-injective p.2).0) ∙ errors-handed p.0.0,
      )

  on_discovered-Adds :
      (found : Next PeerInfo) (s₀ s : Watched D S T Q) {result : Next (Connection T)}
      {s' : Watched D S T Q}
      → s.discovery.results ≡ s₀.discovery.results ++ found ∷ []
      → s.transport ≡ s₀.transport
      → on_discovered (Recording.recording d) (TransportRecording.recording t) channel found s
        ≡ returns (result, s')
      → Adds s₀ result s'
  unfolding on_discovered
  on_discovered-Adds pending s₀ s r k e =
      let (got, same, results, dials, c, f) = poll_transport-Adds s e in
      (pending, got, ground arith, ground arith, rw append-nil (ground arith), c, f)
  on_discovered-Adds (ready none) s₀ s r k e =
      let (got, same, results, dials, c, f) = poll_transport-Adds s e in
      (ready none, got, ground arith, ground arith, rw append-nil (ground arith), c, f)
  on_discovered-Adds (ready (some (err x))) s₀ s r k e = subst_returns (Adds s₀) e (
    ready (some (err x)),
    [],
    r,
    rw append-nil (ground arith),
    rw append-nil (ground arith),
    refl,
    refl,
  )
  on_discovered-Adds (ready (some (ok info))) s₀ s r k e =
      let (got, same, results, dials, c, f) = poll_transport-Adds _ e in
      (ready (some (ok info)), got, ground arith, ground arith, ground arith, c, f)

  poll_next-Adds :
      (fuel : ℕ) (s : Watched D S T Q) {result : Next (Connection T)} {s' : Watched D S T Q}
      → poll_next (Recording.recording d) (TransportRecording.recording t) channel fuel s
        ≡ returns (result, s')
      → Adds s result s'
  unfolding poll_next poll_discovery
  poll_next-Adds fuel s e =
      let p =
        >>=-eq-returns
          (poll_commands (Recording.recording d) (TransportRecording.recording t) channel fuel s) _
          e in
      let (kept, still) = poll_commands-Quiet d t channel fuel s p.1 in
      let q = >>=-eq-returns ((Recording.recording d).poll_next p.0.discovery) _ p.2 in
      let r = Recording.poll_next-recorded d p.0.discovery q.1 in
      on_discovered-Adds q.0.0 s _ (r.1 ∙ ap (λ (xs : List (Next PeerInfo)). xs ++ q.0.0 ∷ []) kept)
        still q.2

  Quiet-Balanced :
      (out : List (Next (Connection T))) (s s' : Watched D S T Q)
      → Balanced out s
      → Quiet s s'
      → Balanced out s'
  Quiet-Balanced out s s' b (kept, still) = record {
    dials = simp (kept, still, b.dials);
    connects = simp (still, b.connects);
    fails = simp (kept, b.fails);
    polls = ap length kept ∙ b.polls;
  }

  pub run-Balanced :
      (fuel : ℕ) (calls : List Call) (out : List (Next (Connection T))) (s : Watched D S T Q)
      {results : List (Next (Connection T))} {s' : Watched D S T Q}
      → Balanced out s
      → run (Recording.recording d) (TransportRecording.recording t) channel fuel calls s
        ≡ returns (results, s')
      → Balanced (out ++ results) s'
  unfolding run
  run-Balanced fuel [] out s b e = subst_returns (λ r u. Balanced (out ++ r) u) e (rw append-nil b)
  run-Balanced fuel (configures topic config ∷ calls) out s b e =
      let p =
        >>=-eq-returns
          (configure (Recording.recording d) (TransportRecording.recording t) channel topic config
            s)
          _ e in
      run-Balanced fuel calls out p.0
        (Quiet-Balanced out s p.0 b (configure-Quiet d t channel topic config s p.1)) p.2
  run-Balanced fuel (sends topic config ∷ calls) out s b e =
      let p =
        >>=-eq-returns
          (handle_configure (Recording.recording d) (TransportRecording.recording t) channel topic
            config s)
          _ e in
      run-Balanced fuel calls out p.0
        (Quiet-Balanced out s p.0 b (handle_configure-Quiet d t channel topic config s p.1)) p.2
  run-Balanced fuel (polls ∷ calls) out s b e =
      let p =
        >>=-eq-returns
          (poll_next (Recording.recording d) (TransportRecording.recording t) channel fuel s) _ e in
      let q =
        >>=-eq-returns
          (run (Recording.recording d) (TransportRecording.recording t) channel fuel calls p.0.1) _
          p.2 in
      let b' = Adds-Balanced out s p.0.0 p.0.1 b (poll_next-Adds fuel s p.1) in
      subst_returns (λ r u. Balanced (out ++ r) u) q.2
        (simp append_assoc at (run-Balanced fuel calls (out ++ p.0.0 ∷ []) p.0.1 b' q.1))

  -- For any discovery and any transport, each wrapped so that it keeps a record of what it is asked
  -- and gives, any channel, any bound on the rounds of the command loop, a swarm that `bind` has
  -- just made of them and any sequence of calls of `configure`, of the handle's `configure` and of
  -- `poll_next` that runs to its end: the addresses that the transport was told to connect to are
  -- those of the peers that the discovery handed out, each once and in order; the connections that
  -- the polls gave are those that the transport gave, in order; the errors that the polls gave are
  -- those of the discovery, in order; and the discovery was polled as often as the swarm.
  pub bind-Balanced :
      (inner : S) (local_addr : TransportRecording.Recorded S T → SocketAddr) (inner' : ℕ → D)
      (fuel : ℕ) (calls : List Call) {s : Watched D S T Q} {results : List (Next (Connection T))}
      {s' : Watched D S T Q}
      → bind
          (Recording.recording d)
          (TransportRecording.recording t)
          channel
          (returns (ok (record { inner = inner; dialled = []; results = [] })))
          local_addr
          (λ port. returns (ok (record { inner = inner' port; log = []; results = [] })))
        ≡ returns (ok s)
      → run (Recording.recording d) (TransportRecording.recording t) channel fuel calls s
        ≡ returns (results, s')
      → Balanced results s'
  unfolding bind
  bind-Balanced inner local_addr inner' fuel calls {s} b e =
      run-Balanced fuel calls [] s
        (record {
          dials = ground arith;
          connects = ground arith;
          fails = ground arith;
          polls = ground arith;
        })
        e
