-- ===== src/Swarm/Drives.antt =====
-- src/swarm.rs: what a swarm does to its discovery is a run of it.
use hyperswarm_rs.Prelude.{
  ℕ, zero, suc, ◌≡◌, subst, Bool, true, false, not, ◌&&◌, Option, none, some, List, [], ◌∷◌, ok,
  err, Poll, pending, ready, Next, Outcome, returns, arith, if◌then◌else◌,
}
use hyperswarm_rs.Prelude.Outcomes
use hyperswarm_rs.Prelude.Outcomes.{>>=-eq-returns, subst_returns}
use hyperswarm_rs.Channel.{Channel}
use hyperswarm_rs.Config.{TopicConfig}
use hyperswarm_rs.Discovery.{Topic, PeerInfo, Discovery}
use hyperswarm_rs.Discovery.Drives.{
  Drives, Drives-refl, Drives-trans, Drives-lookup, Drives-announce, Drives-poll,
}
use hyperswarm_rs.Transport.{Connection, Transport}
use hyperswarm_rs.Swarm.{
  ConfigureCommand, Hyperswarm, ask, configure, handle_configure, on_command, poll_commands,
  poll_transport, on_discovered, poll_discovery, poll_next,
}
use hyperswarm_rs.Swarm.Calls.{Call, configures, sends, polls, run}

module _ {D S T Q : Type 0} (d : Discovery D) (t : Transport S T)
    (channel : Channel Q ConfigureCommand) where
  guarded-Drives :
      (b : Bool) (call : D → Outcome D) (s : D) {s' : D}
      → ((u : D) → call s ≡ returns u → Drives d s u)
      → (if b then call s else returns s) ≡ returns s'
      → Drives d s s'
  guarded-Drives true call s {s'} drives e = drives s' e
  guarded-Drives false call s {s'} drives e =
      let same : s ≡ s' = ground arith in subst (Drives d s) same (Drives-refl d s)

  ask-Drives :
      (topic : Topic) (config old : TopicConfig) (s : D) {s' : D}
      → ask d t channel topic config old s ≡ returns s'
      → Drives d s s'
  unfolding ask
  ask-Drives topic config old s {s'} e =
      let p =
        >>=-eq-returns
          (if config.announce && not old.announce then d.announce topic s else returns s) _ e in
      Drives-trans d s p.0 s'
        (guarded-Drives (config.announce && not old.announce) (d.announce topic) s
          (λ u. Drives-announce d topic s u) p.1)
        (guarded-Drives (config.lookup && not old.lookup) (d.lookup topic) p.0
          (λ u. Drives-lookup d topic p.0 u) p.2)

  -- Between two states of the swarm.
  abbrev pub Leads : Hyperswarm D S Q → Hyperswarm D S Q → Type 0
  Leads s s' = Drives d s.discovery s'.discovery

  configure-Leads :
      (topic : Topic) (config : TopicConfig) (s : Hyperswarm D S Q) {s' : Hyperswarm D S Q}
      → configure d t channel topic config s ≡ returns s'
      → Leads s s'
  unfolding configure
  configure-Leads topic config s {s'} e =
      let p = >>=-eq-returns (ask d t channel topic config _ s.discovery) _ e in
      let same : p.0 ≡ s'.discovery = ground (arith, p.2) in
      subst (Drives d s.discovery) same (ask-Drives topic config _ s.discovery p.1)

  on_command-Leads :
      (again : Hyperswarm D S Q → Outcome (Hyperswarm D S Q))
      (received : Poll (Option ConfigureCommand)) (s : Hyperswarm D S Q) {s' : Hyperswarm D S Q}
      → ((u : Hyperswarm D S Q) → again u ≡ returns s' → Leads u s')
      → on_command d t channel again received s ≡ returns s'
      → Leads s s'
  unfolding on_command
  on_command-Leads again pending s {s'} ih e =
      let same : s.discovery ≡ s'.discovery = ground arith in
      subst (Drives d s.discovery) same (Drives-refl d s.discovery)
  on_command-Leads again (ready none) s {s'} ih e =
      let same : s.discovery ≡ s'.discovery = ground arith in
      subst (Drives d s.discovery) same (Drives-refl d s.discovery)
  on_command-Leads again (ready (some (topic, config))) s {s'} ih e =
      let p = >>=-eq-returns (configure d t channel topic config s) _ e in
      Drives-trans d s.discovery p.0.discovery s'.discovery (configure-Leads topic config s p.1)
        (ih p.0 p.2)

  poll_commands-Leads :
      (fuel : ℕ) (s : Hyperswarm D S Q) {s' : Hyperswarm D S Q}
      → poll_commands d t channel fuel s ≡ returns s'
      → Leads s s'
  unfolding poll_commands
  poll_commands-Leads zero s e = absurd cc
  poll_commands-Leads (suc fuel) s e = on_command-Leads _ _ _ (λ u. poll_commands-Leads fuel u) e

  poll_transport-discovery :
      (s : Hyperswarm D S Q) {result : Next (Connection T)} {s' : Hyperswarm D S Q}
      → poll_transport d t channel s ≡ returns (result, s')
      → s.discovery ≡ s'.discovery
  unfolding poll_transport
  poll_transport-discovery s e = ground (arith, >>=-eq-returns (t.poll_next s.transport) _ e)

  on_discovered-discovery :
      (found : Next PeerInfo) (s : Hyperswarm D S Q) {result : Next (Connection T)}
      {s' : Hyperswarm D S Q}
      → on_discovered d t channel found s ≡ returns (result, s')
      → s.discovery ≡ s'.discovery
  unfolding on_discovered
  on_discovered-discovery pending s e = poll_transport-discovery s e
  on_discovered-discovery (ready none) s e = poll_transport-discovery s e
  on_discovered-discovery (ready (some (err x))) s e = ground arith
  on_discovered-discovery (ready (some (ok info))) s e = poll_transport-discovery _ e

  poll_next-Leads :
      (fuel : ℕ) (s : Hyperswarm D S Q) {result : Next (Connection T)} {s' : Hyperswarm D S Q}
      → poll_next d t channel fuel s ≡ returns (result, s')
      → Leads s s'
  unfolding poll_next poll_discovery
  poll_next-Leads fuel s {s' = s'} e =
      let p = >>=-eq-returns (poll_commands d t channel fuel s) _ e in
      let q = >>=-eq-returns (d.poll_next p.0.discovery) _ p.2 in
      let same : q.0.1 ≡ s'.discovery = on_discovered-discovery q.0.0 _ q.2 in
      Drives-trans d s.discovery p.0.discovery s'.discovery (poll_commands-Leads fuel s p.1)
        (subst (Drives d p.0.discovery) same (Drives-poll d p.0.discovery q.0.1 q.0.0 q.1))

  handle_configure-discovery :
      (topic : Topic) (config : TopicConfig) (s : Hyperswarm D S Q) {s' : Hyperswarm D S Q}
      → handle_configure d t channel topic config s ≡ returns s'
      → s.discovery ≡ s'.discovery
  unfolding handle_configure
  handle_configure-discovery topic config s e =
      ground
        (arith, >>=-eq-returns (Outcomes.unwrap (channel.try_send (topic, config) s.commands)) _ e)

  pub run-Leads :
      (fuel : ℕ) (calls : List Call) (s : Hyperswarm D S Q) {results : List (Next (Connection T))}
      {s' : Hyperswarm D S Q}
      → run d t channel fuel calls s ≡ returns (results, s')
      → Leads s s'
  unfolding run
  run-Leads fuel [] s e = subst_returns (λ r u. Leads s u) e (Drives-refl d s.discovery)
  run-Leads fuel (configures topic config ∷ calls) s {s' = s'} e =
      let p = >>=-eq-returns (configure d t channel topic config s) _ e in
      Drives-trans d s.discovery p.0.discovery s'.discovery (configure-Leads topic config s p.1)
        (run-Leads fuel calls p.0 p.2)
  run-Leads fuel (sends topic config ∷ calls) s {s' = s'} e =
      let p = >>=-eq-returns (handle_configure d t channel topic config s) _ e in
      let same : p.0.discovery ≡ s.discovery =
        ground (arith, handle_configure-discovery topic config s p.1) in
      subst (λ u. Drives d u s'.discovery) same (run-Leads fuel calls p.0 p.2)
  run-Leads fuel (polls ∷ calls) s {s' = s'} e =
      let p = >>=-eq-returns (poll_next d t channel fuel s) _ e in
      let q = >>=-eq-returns (run d t channel fuel calls p.0.1) _ p.2 in
      subst_returns (λ r u. Leads s u) q.2
        (Drives-trans d s.discovery p.0.1.discovery q.0.1.discovery (poll_next-Leads fuel s p.1)
          (run-Leads fuel calls p.0.1 q.1))
