-- ===== src/Hyperchat/Broadcast/Tasks.antt =====
-- `HyperBroadcast` of examples/hyperchat.rs: the tasks of the connections, and the messages for them.
use hyperswarm_rs.Prelude.{
  ℕ, ◌≤◌, ◌<◌, ◌≡◌, refl, sym, ap, subst, ◌∙◌, Bool, true, false, Option, none, some, List, [], ◌∷◌,
  ◌++◌, append-nil, String, arith, ◌==◌, if◌then◌else◌, Bool-cases, ==_iff, inl, inr,
}
use hyperswarm_rs.Net.{SocketAddr}
use hyperswarm_rs.Channel.{Channel, IsFifo}
use hyperswarm_rs.Hyperchat.Connection.{AsyncStream, Connection}
use hyperswarm_rs.Hyperchat.Connection
use hyperswarm_rs.Hyperchat.Connection.Laws.{IsStream}
use hyperswarm_rs.Hyperchat.Connection.Sends.{Sent, longer, run-Sent}
use hyperswarm_rs.Hyperchat.Broadcast.{
  Peer, Event, broadcasts, is_alive, Task, change, queue, send_message, send_each, forward, step,
}
use hyperswarm_rs.Hyperchat.Broadcast.Peers.{count, Chat}

module _ (format : String → SocketAddr → String) {S R W O I : Type 0} {stream : AsyncStream S R W}
    (law : IsStream stream) {outbound : Channel O (List ℕ)} (fifo : IsFifo outbound)
    (inbound : Channel I (List ℕ)) where
  abbrev Worker : Type 0
  Worker = Task format stream outbound inbound

  -- A broadcast message is for a task whose sender is among the peers, while its loop goes on.
  abbrev pub heard : Option Worker → ℕ → List ℕ → List (List ℕ)
  heard none senders message = []
  heard (some task) senders message =
      if is_alive task.connection.stage then (if senders == 0 then [] else message ∷ []) else []

  -- The messages that are broadcast for a task, in order.
  abbrev pub told : ℕ → List (Event S) → Chat format stream outbound inbound → List (List ℕ)
  told n [] b = []
  told n (broadcasts message ∷ events) b =
      heard (b.tasks n) (count n b.peers) message
      ++ told n events (step format stream outbound inbound (broadcasts message) b)
  told n (event ∷ events) b = told n events (step format stream outbound inbound event b)

  -- The loop of a task has written the messages `history`, but for what is left and what is queued.
  pub record Tells (n : ℕ) (before : List ℕ) (history : List (List ℕ))
      (b : Chat format stream outbound inbound) : Type 0 where
    pub task : Worker
    pub there : b.tasks n ≡ some task
    pub known : n < b.next
    pub sends : Sent law fifo inbound before history task.connection

  change-tasks :
      (o : Option Worker) (m : ℕ) (f : Worker → Worker) (b : Chat format stream outbound inbound)
      (n : ℕ) {task : Worker}
      → b.tasks m ≡ o
      → b.tasks n ≡ some task
      → (change format stream outbound inbound o m f b).tasks n
        ≡ some (if m == n then f task else task)
  change-tasks none m f b n {task} e h = elim (Bool-cases (m == n)) [
    | inl same ↦ absurd (none_there (sym e ∙ ap b.tasks ((==_iff m n).0 same) ∙ h))
    | inr other ↦ rw (other, h) refl
  ]
    where
      none_there : ◌≡◌ {A = Option Worker} none (some task) → ⊥
      none_there g = cc
  change-tasks (some task') m f b n {task} e h = elim (Bool-cases (m == n)) [
    | inl same ↦
        rw same
          (ap (λ t. some (f t)) (some_injective (sym e ∙ ap b.tasks ((==_iff m n).0 same) ∙ h)))
    | inr other ↦ rw (other, h) refl
  ]
    where
      some_injective : {x y : Worker} → ◌≡◌ {A = Option Worker} (some x) (some y) → x ≡ y
      some_injective g = cc

  pub send_each-tasks :
      (message : List ℕ) (peers : List Peer) (b : Chat format stream outbound inbound) (n : ℕ)
      (task : Worker)
      → count n peers ≤ 1
      → b.tasks n ≡ some task
      → (send_each format stream outbound inbound message peers b).tasks n
        ≡ some
            (if count n peers == 0 then task else queue format stream outbound inbound message task)
  unfolding send_each send_message
  send_each-tasks message [] b n task h e = e
  send_each-tasks message (peer ∷ peers) b n task h e =
      let moved =
        change-tasks (b.tasks peer.outbound_tx) peer.outbound_tx
          (queue format stream outbound inbound message) b n refl e in
      elim (Bool-cases (peer.outbound_tx == n)) [
        | inl same ↦
            send_each-tasks message peers _ n (queue format stream outbound inbound message task)
              (ground arith) (moved ∙ ground arith)
            ∙ ground arith
        | inr other ↦
            send_each-tasks message peers _ n task (ground arith) (moved ∙ ground arith)
            ∙ ground arith
      ]

  nothing_more :
      {before : List ℕ} {history : List (List ℕ)} {c : Connection S R W O I}
      → Sent law fifo inbound before history c
      → Sent law fifo inbound before (history ++ []) c
  nothing_more known = longer law fifo inbound known (append-nil _)

  chosen :
      (alive is_none : Bool) (message : List ℕ) (task task' : Worker) {before : List ℕ}
      {history : List (List ℕ)}
      → Sent law fifo inbound before history task.connection
      → Sent law fifo inbound before (history ++ message ∷ []) task'.connection
      → Sent law fifo inbound before
          (history ++ (if alive then (if is_none then [] else message ∷ []) else []))
          (if is_none then task else (if alive then task' else task)).connection
  chosen true true message task task' known asked = nothing_more known
  chosen true false message task task' known asked = asked
  chosen false true message task task' known asked = nothing_more known
  chosen false false message task task' known asked = nothing_more known

  pub queue-Sent :
      (message : List ℕ) (task : Worker) (senders : ℕ) {before : List ℕ} {history : List (List ℕ)}
      → Sent law fifo inbound before history task.connection
      → Sent law fifo inbound before
          (history ++ heard (some task) senders message)
          (if senders == 0
            then task
            else queue format stream outbound inbound message task).connection
  unfolding queue Connection.run
  queue-Sent message task senders known =
      chosen (is_alive task.connection.stage) (senders == 0) message task _ known
        (run-Sent law fifo inbound (Connection.queues message ∷ []) task.connection known)

  -- A change of a task by which its loop goes on without a message to send.
  pub changed :
      (o : Option Worker) (m : ℕ) (f : Worker → Worker) (b : Chat format stream outbound inbound)
      (n : ℕ) {before : List ℕ} {history : List (List ℕ)}
      → ((task : Worker)
          → Sent law fifo inbound before history task.connection
          → Sent law fifo inbound before history (f task).connection)
      → b.tasks m ≡ o
      → Tells n before history b
      → Tells n before history (change format stream outbound inbound o m f b)
  changed none m f b n goes e tells = tells
  changed (some task') m f b n {before} {history} goes e tells = record {
    task = if m == n then f tells.task else tells.task;
    there = change-tasks (some task') m f b n e tells.there;
    known = tells.known;
    sends =
        elim (m == n)
          as (λ same.
            Sent law fifo inbound before history
              (if same then f tells.task else tells.task).connection) [
                | true ↦ goes tells.task tells.sends
                | false ↦ tells.sends
              ];
  }

  pub turn-Sent :
      (task : Worker) {before : List ℕ} {history : List (List ℕ)}
      → Sent law fifo inbound before history task.connection
      → Sent law fifo inbound before history
          (Connection.turn stream outbound inbound task.connection)
  unfolding Connection.run
  turn-Sent task known =
      longer law fifo inbound
        (run-Sent law fifo inbound (Connection.turns ∷ []) task.connection known)
        (sym (append-nil _))

  inbound-Sent :
      (task : Worker) {before : List ℕ} {history : List (List ℕ)}
      → Sent law fifo inbound before history task.connection
      → Sent law fifo inbound before history
          (record task.connection { inbound = (inbound.poll_next task.connection.inbound).1 })
  unfolding Connection.run
  inbound-Sent task known =
      longer law fifo inbound
        (run-Sent law fifo inbound (Connection.forwards ∷ []) task.connection known)
        (sym (append-nil _))

  pub retold :
      {n : ℕ} {before : List ℕ} {history history' : List (List ℕ)}
      {b : Chat format stream outbound inbound}
      → Tells n before history b
      → history ≡ history'
      → Tells n before history' b
  retold {n} {before} {b = b} tells e = subst (λ h. Tells n before h b) e tells

  pub forward-Tells :
      (m : ℕ) (o : Option Worker) (b : Chat format stream outbound inbound) (n : ℕ)
      {before : List ℕ} {history : List (List ℕ)}
      → b.tasks m ≡ o
      → Tells n before history b
      → Tells n before history (forward format stream outbound inbound m o b)
  unfolding forward
  forward-Tells m none b n e tells = tells
  forward-Tells m (some task) b n {before} {history} e tells =
      let after =
        changed (some task) m
          (λ t. record t {
            connection = record t.connection {
              inbound = (inbound.poll_next t.connection.inbound).1;
            };
          })
          b n (λ t known. inbound-Sent t known) e tells in
      record { task = after.task; there = after.there; known = after.known; sends = after.sends }
