-- ===== src/Hyperchat/Broadcast/Peers.antt =====
-- `HyperBroadcast` of examples/hyperchat.rs: whose sender is among the peers.
use hyperswarm_rs.Prelude.{
  ℕ, ◌+◌, ◌≤◌, ◌≡◌, refl, ap, subst, ◌∙◌, true, false, Option, none, some, List, [], ◌∷◌, ◌++◌,
  String, IoResult, ok, err, arith, ◌==◌, if◌then◌else◌,
}
use hyperswarm_rs.Net.{SocketAddr}
use hyperswarm_rs.Channel.{Channel}
use hyperswarm_rs.Transport
use hyperswarm_rs.Hyperchat.Connection.{AsyncStream}
use hyperswarm_rs.Hyperchat.Broadcast.{
  Peer, Event, accepts, saves, broadcasts, turns, forwards, leaves, is_alive, retain, Task,
  HyperBroadcast, RunResult, new, change, queue, send_message, send_each, broadcast, spawn,
  on_initial, accept, accept_next, save, forward, leave, step, run,
}

-- How often the task's sender is among the peers, and in the peer that is not saved yet.
abbrev pub count : ℕ → List Peer → ℕ
count n [] = 0
count n (peer ∷ peers) = (if peer.outbound_tx == n then 1 else 0) + count n peers

abbrev pub count_unsaved : ℕ → Option Peer → ℕ
count_unsaved n none = 0
count_unsaved n (some peer) = if peer.outbound_tx == n then 1 else 0

count-append : (n : ℕ) (ps qs : List Peer) → count n (ps ++ qs) ≡ count n ps + count n qs
count-append n [] qs = omega arith
count-append n (p ∷ ps) qs = omega (arith, count-append n ps qs)

module _ (format : String → SocketAddr → String) where
  count-retain :
      (n : ℕ) (peer_id : String) (ps : List Peer) → count n (retain format peer_id ps) ≤ count n ps
  unfolding retain
  count-retain n peer_id [] = omega arith
  count-retain n peer_id (p ∷ ps) = ground (arith, count-retain n peer_id ps)

  module _ {S R W O I : Type 0} (stream : AsyncStream S R W) (outbound : Channel O (List ℕ))
      (inbound : Channel I (List ℕ)) where
    abbrev pub Chat : Type 0
    Chat = HyperBroadcast format stream outbound inbound

    -- The sender of a task is in one peer at most, and that of a task to come in none.
    pub record IsValid (b : Chat) : Type 0 where
      pub once : (n : ℕ) → count n b.peers + count_unsaved n b.unsaved ≤ 1
      pub fresh : (n : ℕ) → b.next ≤ n → count n b.peers + count_unsaved n b.unsaved ≡ 0

    -- Nothing but the tasks and the incoming messages differs.
    pub record Alike (b b' : Chat) : Type 0 where
      pub peers : b'.peers ≡ b.peers
      pub unsaved : b'.unsaved ≡ b.unsaved
      pub next : b'.next ≡ b.next
      pub initial : b'.initial_message ≡ b.initial_message

    Alike-IsValid : {b b' : Chat} → Alike b b' → IsValid b → IsValid b'
    Alike-IsValid {b} {b'} same valid = record {
      once = λ n. rw (same.peers, same.unsaved) (valid.once n);
      fresh = λ n h. rw (same.peers, same.unsaved) (valid.fresh n (subst (λ m. m ≤ n) same.next h));
    }

    Alike-refl : {b : Chat} → Alike b b
    Alike-refl = record { peers = refl; unsaved = refl; next = refl; initial = refl }

    Alike-trans : {b b' b'' : Chat} → Alike b b' → Alike b' b'' → Alike b b''
    Alike-trans f g = record {
      peers = g.peers ∙ f.peers;
      unsaved = g.unsaved ∙ f.unsaved;
      next = g.next ∙ f.next;
      initial = g.initial ∙ f.initial;
    }

    change-Alike :
        (o : Option (Task format stream outbound inbound)) (n : ℕ)
        (f : Task format stream outbound inbound → Task format stream outbound inbound) (b : Chat)
        → Alike b (change format stream outbound inbound o n f b)
    change-Alike none n f b = Alike-refl
    change-Alike (some task) n f b = record {
      peers = refl;
      unsaved = refl;
      next = refl;
      initial = refl;
    }

    pub send_each-Alike :
        (message : List ℕ) (peers : List Peer) (b : Chat)
        → Alike b (send_each format stream outbound inbound message peers b)
    unfolding send_each send_message
    send_each-Alike message [] b = Alike-refl
    send_each-Alike message (peer ∷ peers) b =
        Alike-trans
          (change-Alike (b.tasks peer.outbound_tx) peer.outbound_tx
            (queue format stream outbound inbound message) b)
          (send_each-Alike message peers _)

    forward-Alike :
        (n : ℕ) (o : Option (Task format stream outbound inbound)) (b : Chat)
        → Alike b (forward format stream outbound inbound n o b)
    unfolding forward
    forward-Alike n none b = Alike-refl
    forward-Alike n (some task) b = record {
      peers = refl;
      unsaved = refl;
      next = refl;
      initial = refl;
    }

    -- The invariant, and the initial message as it was.
    abbrev pub Kept : List ℕ → Chat → Type 0
    Kept message b = IsValid b × (b.initial_message ≡ message)

    Alike-Kept : {message : List ℕ} {b b' : Chat} → Alike b b' → Kept message b → Kept message b'
    Alike-Kept same (valid, initial) = (Alike-IsValid same valid, same.initial ∙ initial)

    spawn-IsValid :
        (o : O) (conn : Transport.Connection S) (b : Chat)
        → IsValid b
        → b.unsaved ≡ none
        → IsValid (spawn format stream outbound inbound o conn b)
    unfolding spawn
    spawn-IsValid o conn b valid idle = record {
      once = λ n. ground (arith, valid.once n, valid.fresh n);
      fresh = λ n h. ground (arith, valid.fresh n);
    }

    save-Kept :
        {message : List ℕ} (unsaved : Option Peer) (b : Chat)
        → Kept message b
        → b.unsaved ≡ unsaved
        → Kept message (save format stream outbound inbound unsaved b)
    unfolding save
    save-Kept none b known e = known
    save-Kept (some peer) b (valid, initial) e = (
      record {
        once = λ n.
            omega (arith, valid.once n, count-append n b.peers (peer ∷ []), ap (count_unsaved n) e);
        fresh = λ n h.
            omega
              (arith, valid.fresh n h, count-append n b.peers (peer ∷ []), ap (count_unsaved n) e);
      },
      initial,
    )

    leave-Kept :
        {message : List ℕ} (o : Option (Task format stream outbound inbound)) (b : Chat)
        → Kept message b
        → Kept message (leave format stream outbound inbound o b)
    unfolding leave
    leave-Kept none b known = known
    leave-Kept {message} (some task) b (valid, initial) =
        elim (is_alive task.connection.stage)
          as (λ alive.
            Kept message
              (if alive then b else record b { peers = retain format task.peer_id b.peers })) [
                | true ↦ (valid, initial)
                | false ↦ (
                  record {
                    once = λ n. omega (arith, valid.once n, count-retain n task.peer_id b.peers);
                    fresh =
                        λ n h. omega (arith, valid.fresh n h, count-retain n task.peer_id b.peers);
                  },
                  initial,
                )
              ]

    on_initial-Kept :
        {message : List ℕ} (queued_in : Option O) (conn : Transport.Connection S) (b : Chat)
        → Kept message b
        → b.unsaved ≡ none
        → Kept message (on_initial format stream outbound inbound queued_in conn b)
    unfolding on_initial spawn
    on_initial-Kept none conn b (valid, initial) e =
        (record { once = valid.once; fresh = valid.fresh }, initial)
    on_initial-Kept (some o) conn b (valid, initial) e = (spawn-IsValid o conn b valid e, initial)

    accept-Kept :
        {message : List ℕ} (unsaved : Option Peer) (result : Option RunResult)
        (conn : Option (IoResult (Transport.Connection S))) (b : Chat)
        → Kept message b
        → b.unsaved ≡ unsaved
        → Kept message (accept_next format stream outbound inbound unsaved result conn b)
    unfolding accept
    accept-Kept (some peer) result conn b known e = known
    accept-Kept none (some result) conn b known e = known
    accept-Kept none none none b (valid, initial) e =
        (record { once = valid.once; fresh = valid.fresh }, initial)
    accept-Kept none none (some (err x)) b (valid, initial) e =
        (record { once = valid.once; fresh = valid.fresh }, initial)
    accept-Kept none none (some (ok conn)) b known e =
        on_initial-Kept (outbound.try_send b.initial_message outbound.unbounded) conn b known e

    pub step-Kept :
        {message : List ℕ} (event : Event S) (b : Chat)
        → Kept message b
        → Kept message (step format stream outbound inbound event b)
    unfolding step broadcast
    step-Kept (accepts conn) b known = accept-Kept b.unsaved b.result conn b known refl
    step-Kept saves b known = save-Kept b.unsaved b known refl
    step-Kept (broadcasts text) b known = Alike-Kept (send_each-Alike text b.peers b) known
    step-Kept (turns n) b known = Alike-Kept (change-Alike (b.tasks n) n _ b) known
    step-Kept (forwards n) b known = Alike-Kept (forward-Alike n (b.tasks n) b) known
    step-Kept (leaves n) b known = leave-Kept (b.tasks n) b known

    pub run-Kept :
        {message : List ℕ} (events : List (Event S)) (b : Chat)
        → Kept message b
        → Kept message (run format stream outbound inbound events b)
    unfolding run
    run-Kept [] b known = known
    run-Kept (event ∷ events) b known = run-Kept events _ (step-Kept event b known)

    new-Kept : (message : List ℕ) → Kept message (new format stream outbound inbound message)
    unfolding new
    new-Kept message = (record { once = λ n. omega arith; fresh = λ n h. omega arith }, refl)

    -- After any run of a new `HyperBroadcast`, the sender of a task is in at most one of the peers
    -- and the peer that is not saved yet, that of a task to come is in none of them, and the initial
    -- message is the one given.
    pub run-new-IsValid :
        (message : List ℕ) (events : List (Event S))
        → Kept message
            (run format stream outbound inbound events (new format stream outbound inbound message))
    run-new-IsValid message events = run-Kept events _ (new-Kept message)
