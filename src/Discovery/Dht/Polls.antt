-- ===== src/Discovery/Dht/Polls.antt =====
-- src/discovery/dht.rs: the results of `poll_next` and the state that they leave.
use hyperswarm_rs.Prelude.{
  ℕ, ◌≡◌, refl, ◌∙◌, true, Option, none, some, List, [], ◌∷◌, ok, Poll, pending, ready, Next,
  returns, arith,
}
use hyperswarm_rs.Discovery.{PeerInfo}
use hyperswarm_rs.Discovery.Dht.{
  HyperDhtEvent, HyperDht, DhtDiscovery, Round, on_polled, execute_pending_commands,
  execute_if_bootstrapped, round_with, round, poll_next,
}
use hyperswarm_rs.Discovery.Dht.Rule.{AfterRound, poll_next-rule}

module _ {D : Type 0} where
  -- A poll hands out a peer, or has nothing left to do: no peer waits, and no command either once the
  -- table is bootstrapped.
  abbrev pub IsSettled : Next PeerInfo → DhtDiscovery D → Type 0
  IsSettled pending s =
      (s.pending_events ≡ []) × (s.is_bootstrapped ≡ true → s.pending_commands ≡ [])
  IsSettled (ready (some (ok info))) s = Unit
  IsSettled _ s = ⊥

  abbrev SettledRound : Round D → Type 0
  SettledRound = AfterRound (λ _. Unit {0}) IsSettled

module _ {D : Type 0} (hyper : HyperDht D) where
  on_polled-IsSettled :
      (polled : Poll (Option HyperDhtEvent)) (d : D) (s : DhtDiscovery D)
      → s.pending_events ≡ []
      → (s.is_bootstrapped ≡ true → s.pending_commands ≡ [])
      → SettledRound (on_polled polled d s)
  unfolding on_polled
  on_polled-IsSettled pending d s e c = (e, c)
  on_polled-IsSettled (ready none) d s e c = tt
  on_polled-IsSettled (ready (some event)) d s e c = tt

  execute_if_bootstrapped-empties :
      (s : DhtDiscovery D)
      → let t = execute_if_bootstrapped hyper s in
        (t.pending_events ≡ s.pending_events) × (t.is_bootstrapped ≡ true → t.pending_commands ≡ [])
  unfolding execute_if_bootstrapped execute_pending_commands
  execute_if_bootstrapped-empties s = ground arith

  round-IsSettled :
      (events : List PeerInfo) (s : DhtDiscovery D)
      → s.pending_events ≡ events
      → SettledRound (round_with hyper events s)
  unfolding round_with
  round-IsSettled [] s e =
      let (kept, empties) = execute_if_bootstrapped-empties s in
      on_polled-IsSettled _ _ (execute_if_bootstrapped hyper s) (kept ∙ e) empties
  round-IsSettled (event ∷ rest) s e = tt

  -- Whatever the table does and in whatever state, a poll of the discovery that returns either hands
  -- out a peer or says `Pending`, and never an error or the end of the stream; where it says
  -- `Pending`, no peer is queued, and no command either once the table is bootstrapped.
  pub poll_next-IsSettled :
      (fuel : ℕ) (s : DhtDiscovery D) {result : Next PeerInfo} {s' : DhtDiscovery D}
      → poll_next hyper fuel s ≡ returns (result, s')
      → IsSettled result s'
  unfolding round
  poll_next-IsSettled fuel s e =
      poll_next-rule (λ _. Unit {0}) IsSettled hyper
        (λ t _. round-IsSettled t.pending_events t refl) fuel s tt e
