-- ===== src/Programs/Simple/Nodes.antt =====
-- examples/simple.rs: what a node asks of its discovery, whenever its task polls the swarm.
use hyperswarm_rs.Prelude.{
  ℕ, zero, suc, ◌≡◌, refl, sym, ap, ◌∙◌, Option, none, some, List, [], ◌∷◌, ◌++◌, ok, err, pending,
  ready, Next, returns, arith, if◌then◌else◌, Outcome,
}
use hyperswarm_rs.Prelude.Outcomes.{>>=-eq-returns}
use hyperswarm_rs.Channel.{Channel, IsFifo}
use hyperswarm_rs.Config.{both}
use hyperswarm_rs.Discovery.{Topic, Discovery}
use hyperswarm_rs.Discovery.Calls.{announces, looks_up}
use hyperswarm_rs.Discovery.Recording.{Recorded, recording}
use hyperswarm_rs.Transport.{Connection, Transport}
use hyperswarm_rs.Swarm.{ConfigureCommand, Hyperswarm, handle_configure, poll_next}
use hyperswarm_rs.Swarm.Topics.{same, find}
use hyperswarm_rs.Swarm.Configure.{about}
use hyperswarm_rs.Swarm.Due.{due, due-idle, due-poll_next, due-handle_configure}
use hyperswarm_rs.Programs.Simple.{zero_topic, on_next, take_connections, run_node}

returns_some-injective :
    {A : Type 0} {a b : A}
    → ◌≡◌ {A = Outcome (Option A)} (returns (some a)) (returns (some b))
    → a ≡ b
returns_some-injective e = ground arith

module _ {D S T Q : Type 0} (d : Discovery D) (t : Transport S T)
    (channel : Channel Q ConfigureCommand) (fifo : IsFifo channel) (fuel : ℕ) where
  on_next-again :
      (again : Hyperswarm (Recorded D) S Q → Outcome (Option (Hyperswarm (Recorded D) S Q)))
      (result : Next (Connection T)) (s : Hyperswarm (Recorded D) S Q)
      {s' : Hyperswarm (Recorded D) S Q}
      → on_next (recording d) t channel fuel again (result, s) ≡ returns (some s')
      → again s ≡ returns (some s')
  unfolding on_next
  on_next-again again pending s e = e
  on_next-again again (ready (some (ok stream))) s e = e
  on_next-again again (ready (some (err x))) s e = absurd cc
  on_next-again again (ready none) s e = absurd cc

  due-take_connections :
      (topic : Topic) (turns : ℕ) (more : List ConfigureCommand) (s : Hyperswarm (Recorded D) S Q)
      {s' : Hyperswarm (Recorded D) S Q}
      → take_connections (recording d) t channel fuel turns s ≡ returns (some s')
      → due d t channel fifo topic more s' ≡ due d t channel fifo topic more s
  unfolding take_connections
  due-take_connections topic zero more s e =
      ap (due d t channel fifo topic more) (sym (returns_some-injective e))
  due-take_connections topic (suc turns) more s e =
      let p = >>=-eq-returns (poll_next (recording d) t channel fuel s) _ e in
      due-take_connections topic turns more p.0.1 (on_next-again _ p.0.0 p.0.1 p.2)
      ∙ (due-poll_next d t channel fifo topic fuel more s p.1).0

  take_connections-idle :
      (turns : ℕ) (s : Hyperswarm (Recorded D) S Q) {s' : Hyperswarm (Recorded D) S Q}
      → fifo.contents s.commands ≡ []
      → take_connections (recording d) t channel fuel turns s ≡ returns (some s')
      → fifo.contents s'.commands ≡ []
  unfolding take_connections
  take_connections-idle zero s idle e =
      ap (λ (u : Hyperswarm (Recorded D) S Q). fifo.contents u.commands)
        (sym (returns_some-injective e))
      ∙ idle
  take_connections-idle (suc turns) s idle e =
      let p = >>=-eq-returns (poll_next (recording d) t channel fuel s) _ e in
      take_connections-idle turns p.0.1 (due-poll_next d t channel fifo zero_topic fuel [] s p.1).1
        (on_next-again _ p.0.0 p.0.1 p.2)

  take_connections-empties :
      (turns : ℕ) (s : Hyperswarm (Recorded D) S Q) {s' : Hyperswarm (Recorded D) S Q}
      → take_connections (recording d) t channel fuel (suc turns) s ≡ returns (some s')
      → fifo.contents s'.commands ≡ []
  unfolding take_connections
  take_connections-empties turns s e =
      let p = >>=-eq-returns (poll_next (recording d) t channel fuel s) _ e in
      take_connections-idle turns p.0.1 (due-poll_next d t channel fifo zero_topic fuel [] s p.1).1
        (on_next-again _ p.0.0 p.0.1 p.2)

  handle_configure_keeps :
      (u : Hyperswarm (Recorded D) S Q) {s : Hyperswarm (Recorded D) S Q}
      → handle_configure (recording d) t channel zero_topic both u ≡ returns s
      → (fifo.contents s.commands ≡ fifo.contents u.commands ++ (zero_topic, both) ∷ [])
        × ((topic : Topic) → about topic s.discovery.log ≡ about topic u.discovery.log)
  unfolding handle_configure
  handle_configure_keeps u {s} e =
      let (q, sending, holds) = fifo.sends (zero_topic, both) u.commands in
      let same_queue : s.commands ≡ q = ground arith in
      let same_log : s.discovery.log ≡ u.discovery.log = ground arith in
      (ap fifo.contents same_queue ∙ holds, λ topic. ap (about topic) same_log)

  -- What the one command of a fresh node asks for.
  due_first :
      (topic : Topic) (s : Hyperswarm (Recorded D) S Q)
      → s.topics ≡ []
      → fifo.contents s.commands ≡ []
      → due d t channel fifo topic ((zero_topic, both) ∷ []) s
        ≡ about topic s.discovery.log
          ++ (if same zero_topic topic then announces topic ∷ looks_up topic ∷ [] else [])
  unfolding find
  due_first topic s none_set idle = rw (none_set, idle) (ground arith)

  -- The swarm with the command to announce and look up the topic of zeros sent to it.
  abbrev pub joining : Hyperswarm (Recorded D) S Q → Hyperswarm (Recorded D) S Q
  joining s = record s { commands = (fifo.sends (zero_topic, both) s.commands).0 }

  handle_configure-joining :
      (u : Hyperswarm (Recorded D) S Q)
      → handle_configure (recording d) t channel zero_topic both u ≡ returns (joining u)
  unfolding handle_configure
  handle_configure-joining u =
      let (q, sending, holds) = fifo.sends (zero_topic, both) u.commands in rw sending refl

  run_node-joining :
      (early : ℕ) (s₀ : Hyperswarm (Recorded D) S Q) {u : Hyperswarm (Recorded D) S Q}
      → take_connections (recording d) t channel fuel early s₀ ≡ returns (some u)
      → run_node (recording d) t channel fuel early (returns (ok s₀)) ≡ returns (ok (joining u))
  unfolding run_node
  run_node-joining early s₀ {u} polled = rw (polled, handle_configure-joining u) refl

  -- What a node's discovery was asked about a topic: when the command has just been sent, in `s`,
  -- nothing new, and once its task has polled the swarm after that, in `s'`, one announcement and
  -- one lookup of the topic of zeros.
  pub record Asks (topic : Topic) (s₀ s s' : Hyperswarm (Recorded D) S Q) : Type 0 where
    pub waits : fifo.contents s.commands ≡ (zero_topic, both) ∷ []
    pub none_yet : about topic s.discovery.log ≡ about topic s₀.discovery.log
    pub taken : fifo.contents s'.commands ≡ []
    pub asked :
        about topic s'.discovery.log
        ≡ about topic s₀.discovery.log
          ++ (if same zero_topic topic then announces topic ∷ looks_up topic ∷ [] else [])

  -- Where the channel of commands is an open first-in first-out one and a node's swarm starts
  -- without topics and queued commands, over a discovery that keeps a record: where the task that
  -- `run_node` spawns goes on through any number of polls of the swarm before the topic is
  -- configured, and then through one or more: `run_node` returns, with the swarm as those first
  -- polls left it and the command sent to it; then, before the next poll, the one command to
  -- announce and look up the topic of zeros is what the channel holds, and nothing new has been
  -- asked of the discovery; and after the further polls the channel is empty, and the discovery was
  -- asked one announcement and one lookup of that topic, in this order, and nothing about any other
  -- topic.
  pub run_node-Asks :
      (topic : Topic) (early late : ℕ) (s₀ : Hyperswarm (Recorded D) S Q)
      {u s' : Hyperswarm (Recorded D) S Q}
      → s₀.topics ≡ []
      → fifo.contents s₀.commands ≡ []
      → take_connections (recording d) t channel fuel early s₀ ≡ returns (some u)
      → take_connections (recording d) t channel fuel (suc late) (joining u) ≡ returns (some s')
      → (run_node (recording d) t channel fuel early (returns (ok s₀)) ≡ returns (ok (joining u)))
        × Asks topic s₀ (joining u) s'
  run_node-Asks topic early late s₀ {u} {s'} none_set idle polled f =
      let idle_u = take_connections-idle early s₀ idle polled in
      let (queue, kept) = handle_configure_keeps u (handle_configure-joining u) in
      let taken = take_connections-empties late (joining u) f in
      (
        run_node-joining early s₀ polled,
        record {
          waits = queue ∙ ap (λ xs. xs ++ (zero_topic, both) ∷ []) idle_u;
          none_yet =
              kept topic
              ∙ due-idle d t channel fifo topic u idle_u
              ∙ due-take_connections topic early [] s₀ polled
              ∙ sym (due-idle d t channel fifo topic s₀ idle);
          taken = taken;
          asked =
              due-idle d t channel fifo topic s' taken
              ∙ due-take_connections topic (suc late) [] (joining u) f
              ∙ due-handle_configure d t channel fifo topic zero_topic both [] u
                  (handle_configure-joining u)
              ∙ due-take_connections topic early ((zero_topic, both) ∷ []) s₀ polled
              ∙ due_first topic s₀ none_set idle;
        },
      )
