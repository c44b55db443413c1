-- ===== src/Discovery/Dht/Termination.antt =====
-- src/discovery/dht.rs: how many rounds the loop of `poll_next` takes, over a table that runs out of
-- events.
use hyperswarm_rs.Prelude.{
  ℕ, zero, suc, ◌+◌, ◌*◌, ◌≤◌, ◌<◌, ◌≡◌, refl, ◌≢◌, Option, none, some, List, [], ◌∷◌, Poll,
  pending, ready, Next, Outcome, returns, arith, length,
}
use hyperswarm_rs.Discovery.{PeerInfo}
use hyperswarm_rs.Discovery.Dht.{
  QueryOpts, HyperDhtEvent, HyperDht, Command, lookup, announce, DhtDiscovery, Round, yields,
  breaks, repeats, on_polled, execute, execute_pending_commands, execute_if_bootstrapped, proceed,
  round_with, round, poll_next,
}
use hyperswarm_rs.Discovery.Dht.Events.{on_event_lem}

-- What the source relies on of `HyperDht` as a stream: it never ends, and `backlog` counts the events
-- that it has at hand, of which a poll takes one and a new query adds at most `burst`.
pub record IsDraining {D : Type 0} (hyper : HyperDht D) : Type 0 where
  pub backlog : D → ℕ
  pub burst : ℕ
  pub never_ends : (d : D) → (hyper.poll_next d).0 ≢ ready none
  pub poll_less :
      (d : D) (event : HyperDhtEvent)
      → (hyper.poll_next d).0 ≡ ready (some event)
      → backlog (hyper.poll_next d).1 < backlog d
  pub announce_le : (opts : QueryOpts) (d : D) → backlog (hyper.announce opts d) ≤ backlog d + burst
  pub lookup_le : (opts : QueryOpts) (d : D) → backlog (hyper.lookup opts d) ≤ backlog d + burst

module _ {D : Type 0} {hyper : HyperDht D} (draining : IsDraining hyper) where
  -- The events at hand, and those that the queued commands may bring.
  abbrev pub work : DhtDiscovery D → ℕ
  work s = draining.backlog s.state + draining.burst * length s.pending_commands

  execute_le :
      (commands : List Command) (d : D)
      → draining.backlog (execute hyper commands d)
        ≤ draining.backlog d + draining.burst * length commands
  unfolding execute
  execute_le [] d = omega arith
  execute_le (announce opts ∷ commands) d =
      omega (arith, execute_le commands (hyper.announce opts d), draining.announce_le opts d)
  execute_le (lookup opts ∷ commands) d =
      omega (arith, execute_le commands (hyper.lookup opts d), draining.lookup_le opts d)

  work-execute_if_bootstrapped :
      (s : DhtDiscovery D) → work (execute_if_bootstrapped hyper s) ≤ work s
  unfolding execute_if_bootstrapped execute_pending_commands
  work-execute_if_bootstrapped s = ground (arith, execute_le s.pending_commands s.state)

  -- A round yields, or leaves less work.
  abbrev Works : ℕ → Round D → Type 0
  Works n (yields result s) = Unit
  Works n breaks = ⊥
  Works n (repeats s) = work s < n

  on_polled-Works :
      (polled : Poll (Option HyperDhtEvent)) (d : D) (s : DhtDiscovery D)
      → polled ≢ ready none
      → ((event : HyperDhtEvent)
          → polled ≡ ready (some event)
          → draining.backlog d < draining.backlog s.state)
      → Works (work s) (on_polled polled d s)
  unfolding on_polled
  on_polled-Works pending d s unended less = tt
  on_polled-Works (ready none) d s unended less = absurd (unended refl)
  on_polled-Works (ready (some event)) d s unended less =
      rw (on_event_lem event) (omega (arith, less event refl))

  Works-mono : {m n : ℕ} (r : Round D) → m ≤ n → Works m r → Works n r
  Works-mono (yields result s) h w = tt
  Works-mono breaks h w = w
  Works-mono (repeats s) h w = omega arith

  round-Works :
      (events : List PeerInfo) (s : DhtDiscovery D) → Works (work s) (round_with hyper events s)
  unfolding round_with
  round-Works [] s =
      let t = execute_if_bootstrapped hyper s in
      Works-mono (on_polled (hyper.poll_next t.state).0 (hyper.poll_next t.state).1 t)
        (work-execute_if_bootstrapped s)
        (on_polled-Works _ _ t (draining.never_ends t.state) (draining.poll_less t.state))
  round-Works (event ∷ rest) s = tt

  proceed-returns :
      {n : ℕ} {again : DhtDiscovery D → Outcome (Next PeerInfo × DhtDiscovery D)} (r : Round D)
      → Works n r
      → ((t : DhtDiscovery D)
          → work t < n
          → (x : Next PeerInfo × DhtDiscovery D) × (again t ≡ returns x))
      → (x : Next PeerInfo × DhtDiscovery D) × (proceed again r ≡ returns x)
  unfolding proceed
  proceed-returns (yields result s) w ih = ((result, s), refl)
  proceed-returns breaks w ih = absurd w
  proceed-returns (repeats s) w ih = ih s w

  -- Over a table whose stream never ends, of whose events at hand a poll takes one and to which a
  -- query adds at most `burst`: a poll of the discovery returns, without a panic, within one round
  -- more than the events at hand and `burst` for each queued command.
  pub poll_next-returns :
      (fuel : ℕ) (s : DhtDiscovery D)
      → work s < fuel
      → (r : Next PeerInfo × DhtDiscovery D) × (poll_next hyper fuel s ≡ returns r)
  unfolding poll_next round
  poll_next-returns zero s h = absurd (omega arith)
  poll_next-returns (suc fuel) s h =
      proceed-returns (round hyper s) (round-Works s.pending_events s)
        λ t less. poll_next-returns fuel t (omega arith)
