-- ===== src/Hyperchat/Broadcast/Tells.antt =====
-- `HyperBroadcast` of examples/hyperchat.rs: what each connection is told.
use hyperswarm_rs.Prelude.{
  ℕ, ◌≡◌, refl, sym, ap, subst, ◌∙◌, true, false, Option, none, some, List, [], ◌∷◌, ◌++◌,
  append-nil, append_assoc, String, IoResult, ok, err, arith, ◌==◌, if◌then◌else◌, Bool-cases,
  ==_iff, inl, inr,
}
use hyperswarm_rs.Net.{SocketAddr}
use hyperswarm_rs.Channel.{Channel, IsFifo}
use hyperswarm_rs.Transport
use hyperswarm_rs.Hyperchat.Connection.{AsyncStream, Connection}
use hyperswarm_rs.Hyperchat.Connection
use hyperswarm_rs.Hyperchat.Connection.Laws.{IsStream}
use hyperswarm_rs.Hyperchat.Connection.Sends.{Sent}
use hyperswarm_rs.Hyperchat.Broadcast.{
  Peer, retain, Event, accepts, saves, broadcasts, turns, forwards, leaves, is_alive, id, Task,
  RunResult, new, queue, broadcast, spawn, on_initial, accept, accept_next, save, leave, step, run,
}
use hyperswarm_rs.Hyperchat.Broadcast.Tasks.{
  heard, told, Tells, changed, retold, forward-Tells, turn-Sent, send_each-tasks, queue-Sent,
}
use hyperswarm_rs.Hyperchat.Broadcast.Peers.{
  count, Chat, IsValid, Kept, send_each-Alike, step-Kept, run-new-IsValid,
}

module _ (format : String → SocketAddr → String) {S R W O I : Type 0} {stream : AsyncStream S R W}
    (law : IsStream stream) {outbound : Channel O (List ℕ)} (fifo : IsFifo outbound)
    (inbound : Channel I (List ℕ)) where
  broadcast-Tells :
      (message : List ℕ) (b : Chat format stream outbound inbound) (n : ℕ) {before : List ℕ}
      {history : List (List ℕ)}
      → IsValid format stream outbound inbound b
      → Tells format law fifo inbound n before history b
      → Tells format law fifo inbound n before
          (history ++ heard format law fifo inbound (b.tasks n) (count n b.peers) message)
          (broadcast format stream outbound inbound message b)
  unfolding broadcast
  broadcast-Tells message b n {before} {history} valid tells =
      let alike = send_each-Alike format stream outbound inbound message b.peers b in
      record {
        task =
            if count n b.peers == 0
            then tells.task
            else queue format stream outbound inbound message tells.task;
        there =
            send_each-tasks format law fifo inbound message b.peers b n tells.task
              (omega (arith, valid.once n)) tells.there;
        known = rw alike.next tells.known;
        sends =
            subst
              (λ o.
                Sent law fifo inbound before
                  (history ++ heard format law fifo inbound o (count n b.peers) message)
                  (if count n b.peers == 0
                    then tells.task
                    else queue format stream outbound inbound message tells.task).connection)
              (sym tells.there)
              (queue-Sent format law fifo inbound message tells.task (count n b.peers) tells.sends);
      }

  spawn-Tells :
      (o : O) (conn : Transport.Connection S) (b : Chat format stream outbound inbound) (n : ℕ)
      {before : List ℕ} {history : List (List ℕ)}
      → Tells format law fifo inbound n before history b
      → Tells format law fifo inbound n before history
          (spawn format stream outbound inbound o conn b)
  unfolding spawn
  spawn-Tells o conn b n tells = record {
    task = tells.task;
    there = elim (Bool-cases (b.next == n)) [
      | inl same ↦ absurd (omega (arith, (==_iff b.next n).0 same, tells.known))
      | inr other ↦ rw other tells.there
    ];
    known = omega (arith, tells.known);
    sends = tells.sends;
  }

  same_tasks :
      {b : Chat format stream outbound inbound} (b' : Chat format stream outbound inbound) {n : ℕ}
      {before : List ℕ} {history : List (List ℕ)}
      → Tells format law fifo inbound n before history b
      → b'.tasks ≡ b.tasks
      → b'.next ≡ b.next
      → Tells format law fifo inbound n before history b'
  same_tasks b' {n} tells e f = record {
    task = tells.task;
    there = ap (λ g. g n) e ∙ tells.there;
    known = rw f tells.known;
    sends = tells.sends;
  }

  accept-Tells :
      (unsaved : Option Peer) (result : Option RunResult)
      (conn : Option (IoResult (Transport.Connection S))) (b : Chat format stream outbound inbound)
      (n : ℕ) {before : List ℕ} {history : List (List ℕ)}
      → Tells format law fifo inbound n before history b
      → Tells format law fifo inbound n before history
          (accept_next format stream outbound inbound unsaved result conn b)
  unfolding accept on_initial
  accept-Tells (some peer) result conn b n tells = tells
  accept-Tells none (some result) conn b n tells = tells
  accept-Tells none none none b n tells = same_tasks _ tells refl refl
  accept-Tells none none (some (err e)) b n tells = same_tasks _ tells refl refl
  accept-Tells none none (some (ok conn)) b n {before} {history} tells =
      elim (outbound.try_send b.initial_message outbound.unbounded)
        as (λ o.
          Tells format law fifo inbound n before history
            (on_initial format stream outbound inbound o conn b)) [
              | none ↦ same_tasks _ tells refl refl
              | some o ↦ spawn-Tells o conn b n tells
            ]

  save-Tells :
      (unsaved : Option Peer) (b : Chat format stream outbound inbound) {n : ℕ} {before : List ℕ}
      {history : List (List ℕ)}
      → Tells format law fifo inbound n before history b
      → Tells format law fifo inbound n before history
          (save format stream outbound inbound unsaved b)
  unfolding save
  save-Tells none b tells = tells
  save-Tells (some peer) b tells = same_tasks _ tells refl refl

  leave-Tells :
      (o : Option (Task format stream outbound inbound)) (b : Chat format stream outbound inbound)
      {n : ℕ} {before : List ℕ} {history : List (List ℕ)}
      → Tells format law fifo inbound n before history b
      → Tells format law fifo inbound n before history (leave format stream outbound inbound o b)
  unfolding leave
  leave-Tells none b tells = tells
  leave-Tells (some task) b {n} {before} {history} tells =
      elim (is_alive task.connection.stage)
        as (λ alive.
          Tells format law fifo inbound n before history
            (if alive then b else record b { peers = retain format task.peer_id b.peers })) [
              | true ↦ tells
              | false ↦ same_tasks _ tells refl refl
            ]

  run-Tells :
      (events : List (Event S)) (b : Chat format stream outbound inbound) (n : ℕ)
      {message before : List ℕ} {history : List (List ℕ)}
      → Kept format stream outbound inbound message b
      → Tells format law fifo inbound n before history b
      → Tells format law fifo inbound n before
          (history ++ told format law fifo inbound n events b)
          (run format stream outbound inbound events b)
  unfolding run step
  run-Tells [] b n kept tells = retold format law fifo inbound tells (sym (append-nil _))
  run-Tells (accepts conn ∷ events) b n kept tells =
      run-Tells events _ n (step-Kept format stream outbound inbound (accepts conn) b kept)
        (accept-Tells b.unsaved b.result conn b n tells)
  run-Tells (saves ∷ events) b n kept tells =
      run-Tells events _ n (step-Kept format stream outbound inbound saves b kept)
        (save-Tells b.unsaved b tells)
  run-Tells (turns m ∷ events) b n kept tells =
      run-Tells events _ n (step-Kept format stream outbound inbound (turns m) b kept) (
        changed format law fifo inbound (b.tasks m) m _ b n
          (λ t known. turn-Sent format law fifo inbound t known) refl tells)
  run-Tells (forwards m ∷ events) b n kept tells =
      run-Tells events _ n (step-Kept format stream outbound inbound (forwards m) b kept)
        (forward-Tells format law fifo inbound m (b.tasks m) b n refl tells)
  run-Tells (leaves m ∷ events) b n kept tells =
      run-Tells events _ n (step-Kept format stream outbound inbound (leaves m) b kept)
        (leave-Tells (b.tasks m) b tells)
  run-Tells (broadcasts text ∷ events) b n {history = history} kept tells =
      retold format law fifo inbound
        (run-Tells events _ n (step-Kept format stream outbound inbound (broadcasts text) b kept)
          (broadcast-Tells text b n kept.0 tells))
        (append_assoc history (heard format law fifo inbound (b.tasks n) (count n b.peers) text) _)

  -- The task of a stream that has just been accepted.
  accepted-Tells :
      (conn : Transport.Connection S) (b : Chat format stream outbound inbound)
      → b.unsaved ≡ none
      → b.result ≡ none
      → Tells format law fifo inbound b.next
          (law.views.sent conn.inner)
          (b.initial_message ∷ [])
          (step format stream outbound inbound (accepts (some (ok conn))) b)
  unfolding step accept on_initial spawn
  accepted-Tells conn b idle running =
      let (o, accepted, holds) = fifo.sends b.initial_message outbound.unbounded in
      let queued : fifo.contents o ≡ b.initial_message ∷ [] =
        holds ∙ ap (λ q. q ++ b.initial_message ∷ []) fifo.starts_empty in
      rw (idle, running, accepted)
        (record {
          task = record {
            connection = record {
              stage = Connection.start stream outbound inbound;
              stream = conn.inner;
              outbound = o;
              inbound = inbound.unbounded;
            };
            peer_id =
                id format (record {
                  outbound_tx = b.next;
                  addr = conn.peer_addr;
                  protocol = conn.protocol;
                });
          };
          there = rw ((==_iff b.next b.next).1 refl) refl;
          known = omega arith;
          sends = record { taken = []; rest = []; queues = queued; writes = refl; owes = refl };
        })

  -- Where the channels of outgoing messages are unbounded and open, and reading and writing do as
  -- they are documented to: for any run of a new `HyperBroadcast`, after which it accepts a stream,
  -- and any run that follows: what the task of that stream has written to it, followed by what it
  -- has left to write unless its loop has ended, is the frames, in order, of the first of these
  -- messages, and those not taken yet wait in its channel in order: the initial message, then each
  -- message that was broadcast while the task's sender was among the peers and its loop had not
  -- ended, once.
  pub run-Tells_all :
      (message : List ℕ) (earlier later : List (Event S)) (conn : Transport.Connection S)
      {b : Chat format stream outbound inbound}
      → run format stream outbound inbound earlier (new format stream outbound inbound message) ≡ b
      → b.unsaved ≡ none
      → b.result ≡ none
      → let b' = step format stream outbound inbound (accepts (some (ok conn))) b in
        Tells format law fifo inbound b.next
          (law.views.sent conn.inner)
          (message ∷ told format law fifo inbound b.next later b')
          (run format stream outbound inbound later b')
  run-Tells_all message earlier later conn {b} ran idle running =
      let kept =
        subst (Kept format stream outbound inbound message) ran
          (run-new-IsValid format stream outbound inbound message earlier) in
      run-Tells later _ b.next
        (step-Kept format stream outbound inbound (accepts (some (ok conn))) b kept)
        (retold format law fifo inbound (accepted-Tells conn b idle running)
          (ap (λ m. m ∷ []) kept.1))
