-- ===== src/Swarm/Handles.antt =====
-- src/swarm.rs: commands from handles, sent at any time between polls of the swarm.
use hyperswarm_rs.Prelude.{
  ℕ, ◌≡◌, subst, ◌∙◌, Bool, true, false, List, [], ◌∷◌, ◌++◌, Next, returns, arith,
}
use hyperswarm_rs.Prelude.Outcomes.{>>=-eq-returns, subst_returns}
use hyperswarm_rs.Channel.{Channel, IsFifo}
use hyperswarm_rs.Discovery.{Topic, Discovery}
use hyperswarm_rs.Discovery.Recording.{Recorded, recording}
use hyperswarm_rs.Transport.{Connection, Transport}
use hyperswarm_rs.Swarm.{ConfigureCommand, Hyperswarm, handle_configure, poll_next}
use hyperswarm_rs.Swarm.Calls.{Call, configures, sends, polls, run}
use hyperswarm_rs.Swarm.Configure.{about, asks_all, setting, settings_of}
use hyperswarm_rs.Swarm.Due.{due, due-idle, due-poll_next, due-handle_configure}

-- Whether all commands come from handles, and these commands.
abbrev pub is_handled : List Call → Bool
is_handled [] = true
is_handled (configures topic config ∷ calls) = false
is_handled (sends topic config ∷ calls) = is_handled calls
is_handled (polls ∷ calls) = is_handled calls

abbrev pub sent : List Call → List ConfigureCommand
sent [] = []
sent (configures topic config ∷ calls) = sent calls
sent (sends topic config ∷ calls) = (topic, config) ∷ sent calls
sent (polls ∷ calls) = sent calls

module _ {D S T Q : Type 0} (d : Discovery D) (t : Transport S T)
    (channel : Channel Q ConfigureCommand) (fifo : IsFifo channel) (topic : Topic) where
  -- For every topic and every sequence of commands from handles, of this topic and of others, and of
  -- polls between them, wherever they fall, that ends with a poll and runs to its end over an open
  -- first-in first-out channel and a discovery that keeps a record: what the discovery was asked
  -- about the topic is what it had been asked before and then what the commands of that topic ask
  -- for, those that were queued at the start and then those that were sent, each once and in the
  -- order of sending; and no command is left queued.
  pub run-asks :
      (fuel : ℕ) (calls : List Call) (s : Hyperswarm (Recorded D) S Q)
      {results : List (Next (Connection T))} {s' : Hyperswarm (Recorded D) S Q}
      → is_handled calls ≡ true
      → run (recording d) t channel fuel (calls ++ polls ∷ []) s ≡ returns (results, s')
      → (about topic s'.discovery.log
          ≡ about topic s.discovery.log
            ++ asks_all topic
                (setting topic s)
                (settings_of topic (fifo.contents s.commands ++ sent calls)))
        × (fifo.contents s'.commands ≡ [])
  unfolding run
  run-asks fuel [] s {s' = s'} h e =
      let p = >>=-eq-returns (poll_next (recording d) t channel fuel s) _ e in
      let (same_due, empty) = due-poll_next d t channel fifo topic fuel [] s p.1 in
      let same_state : p.0.1 ≡ s' = ground (arith, p.2) in
      subst
        (λ (u : Hyperswarm (Recorded D) S Q).
          (about topic u.discovery.log ≡ due d t channel fifo topic [] s)
          × (fifo.contents u.commands ≡ []))
        same_state (due-idle d t channel fifo topic p.0.1 empty ∙ same_due, empty)
  run-asks fuel (configures other config ∷ calls) s h e = absurd cc
  run-asks fuel (sends other config ∷ calls) s h e =
      let p = >>=-eq-returns (handle_configure (recording d) t channel other config s) _ e in
      let (asks, empty) = run-asks fuel calls p.0 h p.2 in
      (asks ∙ due-handle_configure d t channel fifo topic other config (sent calls) s p.1, empty)
  run-asks fuel (polls ∷ calls) s h e =
      let p = >>=-eq-returns (poll_next (recording d) t channel fuel s) _ e in
      let q = >>=-eq-returns (run (recording d) t channel fuel (calls ++ polls ∷ []) p.0.1) _ p.2 in
      subst_returns
        (λ r (u : Hyperswarm (Recorded D) S Q).
          (about topic u.discovery.log ≡ due d t channel fifo topic (sent calls) s)
          × (fifo.contents u.commands ≡ []))
        q.2
        (let (asks, empty) = run-asks fuel calls p.0.1 h q.1 in
          (asks ∙ (due-poll_next d t channel fifo topic fuel (sent calls) s p.1).0, empty))
