-- ===== src/Discovery/Dht/Accounts.antt =====
-- src/discovery/dht.rs: the books of a discovery, on the commands it was given and those it has sent, and
-- on the peers it was told and those it has handed out.
use hyperswarm_rs.Prelude.{
  ℕ, ◌≡◌, refl, sym, ap, subst, subst₂, ◌∙◌, true, false, Option, none, some, List, [], ◌∷◌, ◌++◌,
  append-nil, append_assoc, ok, Poll, pending, ready, Next, returns, arith, Bool-cases, inl, inr,
}
use hyperswarm_rs.Prelude.Outcomes.{>>=-eq-returns}
use hyperswarm_rs.Discovery.{Topic, PeerInfo}
use hyperswarm_rs.Discovery.Calls.{Call, looks_up, announces, polls, emitted, emitted_all, run}
use hyperswarm_rs.Discovery.Dht.{
  bind, dht_discovery, HyperDhtEvent, HyperDht, Command, lookup, announce, DhtDiscovery, Round,
  query_opts, push_lookup, push_announce, on_event, execute_pending_commands, on_polled, poll_state,
  execute_if_bootstrapped, round_with, round, poll_next,
}
use hyperswarm_rs.Discovery.Dht.Rule.{AfterRound, poll_next-rule}
use hyperswarm_rs.Discovery.Dht.Logged.{
  Logged, event_in, logged, found, saw_bootstrap, found-append, saw_bootstrap-append, requested,
}
use hyperswarm_rs.Discovery.Dht.Events.{or_false, on_event_lem, execute-logged}

module _ {D : Type 0} where
  -- The books of a discovery that was given the commands `given` and has handed out the peers `out`.
  pub record Accounted (port : ℕ) (given : List Command) (out : List PeerInfo)
      (s : DhtDiscovery (Logged D)) : Type 0 where
    pub announces : s.announce_port ≡ port
    pub commands : s.state.issued ++ s.pending_commands ≡ given
    pub events : out ++ s.pending_events ≡ found s.state.seen
    pub bootstrap : s.is_bootstrapped ≡ saw_bootstrap s.state.seen
    pub waits : s.is_bootstrapped ≡ false → s.state.issued ≡ []

-- What a round leaves, when it began with the books in order.
abbrev RoundAccounted : {D : Type 0} → ℕ → List Command → List PeerInfo → Round (Logged D) → Type 0
RoundAccounted port given out =
    AfterRound (Accounted port given out) (λ result. Accounted port given (out ++ emitted result))

module _ {D : Type 0} (hyper : HyperDht D) where
  execute_pending_commands-Accounted :
      {port : ℕ} {given : List Command} {out : List PeerInfo} (s : DhtDiscovery (Logged D))
      → s.is_bootstrapped ≡ true
      → Accounted port given out s
      → Accounted port given out (execute_pending_commands (logged hyper) s)
  unfolding execute_pending_commands
  execute_pending_commands-Accounted s b a =
      rw (execute-logged hyper s.pending_commands s.state) (record {
        announces = a.announces;
        commands = append-nil _ ∙ a.commands;
        events = a.events;
        bootstrap = a.bootstrap;
        waits = λ e. cc;
      })

  -- The books after an event that the table has just given.
  on_event-Accounted :
      (port : ℕ) (given : List Command) (out : List PeerInfo) (event : HyperDhtEvent)
      (s : DhtDiscovery (Logged D)) (d : D)
      → Accounted port given out s
      → Accounted port given out (
          on_event event
            (record s { state = record s.state { inner = d; seen = s.state.seen ++ event ∷ [] } }))
  on_event-Accounted port given out event s d a = rw (on_event_lem event) (record {
    announces = a.announces;
    commands = a.commands;
    events = simp (found-append, append-nil, ← append_assoc, a.events);
    bootstrap = simp (saw_bootstrap-append, or_false, a.bootstrap);
    waits = ground (arith, a.waits);
  })

  on_polled-Accounted :
      (port : ℕ) (given : List Command) (out : List PeerInfo) (polled : Poll (Option HyperDhtEvent))
      (d : D) (s : DhtDiscovery (Logged D))
      → Accounted port given out s
      → s.pending_events ≡ []
      → RoundAccounted port given out (
          on_polled polled (record s.state { inner = d; seen = s.state.seen ++ event_in polled }) s)
  unfolding on_polled
  on_polled-Accounted port given out pending d s a e = record {
    announces = a.announces;
    commands = a.commands;
    events = simp (append-nil, a.events);
    bootstrap = simp (append-nil, a.bootstrap);
    waits = a.waits;
  }
  on_polled-Accounted port given out (ready none) d s a e = tt
  on_polled-Accounted port given out (ready (some event)) d s a e =
      on_event-Accounted port given out event s d a

  poll_state-Accounted :
      (port : ℕ) (given : List Command) (out : List PeerInfo) (s : DhtDiscovery (Logged D))
      → Accounted port given out s
      → s.pending_events ≡ []
      → RoundAccounted port given out (poll_state (logged hyper) s)
  unfolding poll_state
  poll_state-Accounted port given out s a e = on_polled-Accounted port given out _ _ s a e

  execute_if_bootstrapped-Accounted :
      {port : ℕ} {given : List Command} {out : List PeerInfo} (s : DhtDiscovery (Logged D))
      → Accounted port given out s
      → Accounted port given out (execute_if_bootstrapped (logged hyper) s)
  unfolding execute_if_bootstrapped
  execute_if_bootstrapped-Accounted s a = elim (Bool-cases s.is_bootstrapped) [
    | inl b ↦ simp b (execute_pending_commands-Accounted s b a)
    | inr b ↦ simp b a
  ]

  pub pending_events-execute_if_bootstrapped :
      (s : DhtDiscovery D) → (execute_if_bootstrapped hyper s).pending_events ≡ s.pending_events
  unfolding execute_if_bootstrapped execute_pending_commands
  pending_events-execute_if_bootstrapped s = ground arith

module _ {D : Type 0} (hyper : HyperDht D) where
  -- One round keeps the books.
  round_with-Accounted :
      (port : ℕ) (given : List Command) (out events : List PeerInfo) (s : DhtDiscovery (Logged D))
      → Accounted port given out s
      → s.pending_events ≡ events
      → RoundAccounted port given out (round_with (logged hyper) events s)
  unfolding round_with
  round_with-Accounted port given out [] s a e =
      poll_state-Accounted hyper port given out _ (execute_if_bootstrapped-Accounted hyper s a)
        (pending_events-execute_if_bootstrapped (logged hyper) s ∙ e)
  round_with-Accounted port given out (event ∷ rest) s a e = record {
    announces = a.announces;
    commands = a.commands;
    events = simp append_assoc (ap (◌++◌ out) (sym e) ∙ a.events);
    bootstrap = a.bootstrap;
    waits = a.waits;
  }

  -- A poll that returns keeps the books.
  pub poll_next-Accounted :
      (port : ℕ) (given : List Command) (out : List PeerInfo) (fuel : ℕ)
      (s : DhtDiscovery (Logged D)) {result : Next PeerInfo} {s' : DhtDiscovery (Logged D)}
      → Accounted port given out s
      → poll_next (logged hyper) fuel s ≡ returns (result, s')
      → Accounted port given (out ++ emitted result) s'
  unfolding round
  poll_next-Accounted port given out fuel s a h =
      poll_next-rule (Accounted port given out)
        (λ result. Accounted port given (out ++ emitted result)) (logged hyper)
        (λ t b. round_with-Accounted port given out t.pending_events t b refl) fuel s a h

module _ {D : Type 0} {port : ℕ} {given : List Command} {out : List PeerInfo} where
  push_lookup-Accounted :
      (topic : Topic) (s : DhtDiscovery (Logged D))
      → Accounted port given out s
      → Accounted port (given ++ lookup (query_opts port topic) ∷ []) out (push_lookup topic s)
  unfolding push_lookup
  push_lookup-Accounted topic s a = record {
    announces = a.announces;
    commands = simp (← append_assoc, a.commands, a.announces);
    events = a.events;
    bootstrap = a.bootstrap;
    waits = a.waits;
  }

  push_announce-Accounted :
      (topic : Topic) (s : DhtDiscovery (Logged D))
      → Accounted port given out s
      → Accounted port (given ++ announce (query_opts port topic) ∷ []) out (push_announce topic s)
  unfolding push_announce
  push_announce-Accounted topic s a = record {
    announces = a.announces;
    commands = simp (← append_assoc, a.commands, a.announces);
    events = a.events;
    bootstrap = a.bootstrap;
    waits = a.waits;
  }

module _ {D : Type 0} (hyper : HyperDht D) (fuel port : ℕ) where
  run-Accounted :
      (calls : List Call) (given : List Command) (before : List PeerInfo)
      (s : DhtDiscovery (Logged D)) {results : List (Next PeerInfo)} {s' : DhtDiscovery (Logged D)}
      → Accounted port given before s
      → run (dht_discovery (logged hyper) fuel) calls s ≡ returns (results, s')
      → Accounted port (given ++ requested port calls) (before ++ emitted_all results) s'
  unfolding run
  run-Accounted [] given before s {results} {s'} a h =
      let same : ([] ≡ results) × (s ≡ s') = ground arith in
      subst₂ (λ y u. Accounted port (given ++ []) (before ++ emitted_all y) u) same.0 same.1
        (simp append-nil a)
  run-Accounted (looks_up topic ∷ calls) given before s a h =
      simp append_assoc at (run-Accounted calls _ before _ (push_lookup-Accounted topic s a) h)
  run-Accounted (announces topic ∷ calls) given before s a h =
      simp append_assoc at (run-Accounted calls _ before _ (push_announce-Accounted topic s a) h)
  run-Accounted (polls ∷ calls) given before s {results} {s'} a h =
      let p = >>=-eq-returns (poll_next (logged hyper) fuel s) _ h in
      let q = >>=-eq-returns (run (dht_discovery (logged hyper) fuel) calls p.0.1) _ p.2 in
      let same : (p.0.0 ∷ q.0.0 ≡ results) × (q.0.1 ≡ s') = ground (arith, q.2) in
      let b = poll_next-Accounted hyper port given before fuel s a p.1 in
      subst₂ (λ y u. Accounted port (given ++ requested port calls) (before ++ emitted_all y) u)
        same.0 same.1 (simp append_assoc at (run-Accounted calls given _ p.0.1 b q.1))

  -- For any table, wrapped so that it keeps a record, a discovery that `bind` has just made and any
  -- sequence of lookups, announcements and polls that runs to its end: the queries sent to the
  -- table, followed by the commands that still wait, are the queries that were asked for, in order
  -- and with the announced port; the peers handed out, followed by those still queued, are the peers
  -- of the lookup results that the table gave, in order; the discovery counts as bootstrapped
  -- exactly when the table has said so; and while it does not, nothing was sent.
  pub bind-Accounted :
      (state : D) (calls : List Call) {s : DhtDiscovery (Logged D)} {results : List (Next PeerInfo)}
      {s' : DhtDiscovery (Logged D)}
      → bind (ok (record { inner = state; issued = []; seen = [] })) port ≡ ok s
      → run (dht_discovery (logged hyper) fuel) calls s ≡ returns (results, s')
      → Accounted port (requested port calls) (emitted_all results) s'
  unfolding bind
  bind-Accounted state calls {s = s} b r =
      let start : DhtDiscovery (Logged D) = record {
        state = record { inner = state; issued = []; seen = [] };
        is_bootstrapped = false;
        announce_port = port;
        pending_commands = [];
        pending_events = [];
      } in
      let same : start ≡ s = ground arith in
      let books : Accounted port [] [] start = record {
        announces = refl;
        commands = refl;
        events = refl;
        bootstrap = refl;
        waits = λ _. refl;
      } in
      run-Accounted calls [] [] s (subst (Accounted port [] []) same books) r
