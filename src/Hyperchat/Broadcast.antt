-- ===== src/Hyperchat/Broadcast.antt =====
-- examples/hyperchat.rs: `HyperBroadcast`, its peers and the tasks of their connections.
-- A task is known by a number, and the sender of its channel by the number of the task. A message is its bytes.
pub mod Peers
pub mod Tasks
pub mod Tells
use text.Mathlib.Text
use hyperswarm_rs.Prelude.{
  ℕ, ◌+◌, Bool, true, false, not, Option, none, some, List, [], ◌∷◌, ◌++◌, String, IoError,
  IoResult, ok, err, Poll, pending, ready, ◌==◌, if◌then◌else◌,
}
use hyperswarm_rs.Net.{SocketAddr}
use hyperswarm_rs.Channel.{Channel}
use hyperswarm_rs.Transport
use hyperswarm_rs.Hyperchat.Connection.{AsyncStream, Stage, ended, Connection, start, turn, queued}

pub record IncomingMessage : Type 0 where
  pub from : String
  pub content : List ℕ

-- How the task of `run` returns: at the end of the swarm, at its error, or at a send that fails.
pub data RunResult : Type 0 where
  finished send_failed : RunResult
  failed : IoError → RunResult

pub record Peer : Type 0 where
  pub outbound_tx : ℕ
  pub addr : SocketAddr
  pub protocol : String

-- What goes on: the swarm gives a stream, or ends; its peer is saved; a message is broadcast; the loop of a
-- task has a turn; a message that it received is forwarded; and a task whose loop has ended removes its peer.
pub data Event (S : Type 0) : Type 0 where
  accepts : Option (IoResult (Transport.Connection S)) → Event S
  saves : Event S
  broadcasts : List ℕ → Event S
  turns forwards leaves : ℕ → Event S

-- The loop of a connection has not returned, so that the receiver of its channel is there.
abbrev pub is_alive : {R W : Type 0} → Stage R W → Bool
is_alive (ended e) = false
is_alive _ = true

-- The name that is printed is `format!`'s: the parameter `format` of the text of an address.
module _ (format : String → SocketAddr → String) where
  -- Peer::id
  unfoldable pub id : Peer → String
  id peer = format peer.protocol peer.addr

  -- `peers.retain(|peer| peer.id() != peer_id)`
  unfoldable pub retain : String → List Peer → List Peer
  retain peer_id [] = []
  retain peer_id (peer ∷ peers) =
      let rest = retain peer_id peers in if Text.◌==◌ (id peer) peer_id then rest else peer ∷ rest

  module _ {S R W O I : Type 0} (stream : AsyncStream S R W) (outbound : Channel O (List ℕ))
      (inbound : Channel I (List ℕ)) where
    pub record Task : Type 0 where
      pub connection : Connection S R W O I
      pub peer_id : String

    -- `unsaved` is the peer of the stream at hand, and `result` that of the task of `run`, when it has returned.
    pub record HyperBroadcast : Type 0 where
      pub initial_message : List ℕ
      pub peers : List Peer
      pub tasks : ℕ → Option Task
      pub next : ℕ
      pub unsaved : Option Peer
      pub incoming : List IncomingMessage
      pub result : Option RunResult

    -- HyperBroadcast::new
    unfoldable pub new : List ℕ → HyperBroadcast
    new initial_message = record {
      initial_message = initial_message;
      peers = [];
      tasks = λ n. none;
      next = 0;
      unsaved = none;
      incoming = [];
      result = none;
    }

    abbrev pub put : ℕ → Task → HyperBroadcast → HyperBroadcast
    put n task b = record b { tasks = λ m. if n == m then some task else b.tasks m }

    -- A change of a task, if it is there.
    abbrev pub change : Option Task → ℕ → (Task → Task) → HyperBroadcast → HyperBroadcast
    change none n f b = b
    change (some task) n f b = put n (f task) b

    -- The send fails, and only that is logged, where the receiver is gone.
    unfoldable pub queue : List ℕ → Task → Task
    queue message task =
        if is_alive task.connection.stage
        then record task {
          connection =
              queued stream outbound inbound (outbound.try_send message task.connection.outbound)
                task.connection;
        }
        else task

    -- Peer::send_message
    unfoldable pub send_message : List ℕ → Peer → HyperBroadcast → HyperBroadcast
    send_message message peer b =
        change (b.tasks peer.outbound_tx) peer.outbound_tx (queue message) b

    -- HyperBroadcast::broadcast
    unfoldable pub send_each : List ℕ → List Peer → HyperBroadcast → HyperBroadcast
    send_each message [] b = b
    send_each message (peer ∷ peers) b = send_each message peers (send_message message peer b)

    unfoldable pub broadcast : List ℕ → HyperBroadcast → HyperBroadcast
    broadcast message b = send_each message b.peers b

    -- The task of a connection, with the initial message queued.
    unfoldable pub spawn : O → Transport.Connection S → HyperBroadcast → HyperBroadcast
    spawn o conn b =
        let peer : Peer = record {
          outbound_tx = b.next;
          addr = conn.peer_addr;
          protocol = conn.protocol;
        } in
        let task : Task = record {
          connection = record {
            stage = start stream outbound inbound;
            stream = conn.inner;
            outbound = o;
            inbound = inbound.unbounded;
          };
          peer_id = id peer;
        } in
        record (put b.next task b) { next = b.next + 1; unsaved = some peer }

    -- `outbound_tx.send(initial_message.clone()).await?`, and what follows.
    unfoldable pub on_initial : Option O → Transport.Connection S → HyperBroadcast → HyperBroadcast
    on_initial none conn b = record b { result = some send_failed }
    on_initial (some o) conn b = spawn o conn b

    -- The body of the loop of `run`, up to the lock of the peers.
    unfoldable pub accept :
        Option (IoResult (Transport.Connection S)) → HyperBroadcast → HyperBroadcast
    accept none b = record b { result = some finished }
    accept (some (err e)) b = record b { result = some (failed e) }
    accept (some (ok conn)) b =
        on_initial (outbound.try_send b.initial_message outbound.unbounded) conn b

    -- `peers.lock().await.push(peer)`
    unfoldable pub save : Option Peer → HyperBroadcast → HyperBroadcast
    save none b = b
    save (some peer) b = record b { peers = b.peers ++ peer ∷ []; unsaved = none }

    abbrev pub from_task :
        String → Poll (Option (List ℕ)) → List IncomingMessage → List IncomingMessage
    from_task peer_id (ready (some message)) incoming =
        incoming ++ record { from = peer_id; content = message } ∷ []
    from_task peer_id _ incoming = incoming

    -- The task that forwards what a connection receives.
    unfoldable pub forward : ℕ → Option Task → HyperBroadcast → HyperBroadcast
    forward n none b = b
    forward n (some task) b =
        let (received, i) = inbound.poll_next task.connection.inbound in
        record (put n (record task { connection = record task.connection { inbound = i } }) b) {
          incoming = from_task task.peer_id received b.incoming;
        }

    -- What follows `connection_loop` in its task.
    unfoldable pub leave : Option Task → HyperBroadcast → HyperBroadcast
    leave none b = b
    leave (some task) b =
        if is_alive task.connection.stage
        then b
        else record b { peers = retain task.peer_id b.peers }

    -- While a peer is not saved, or when it has returned, the task of `run` accepts no stream.
    abbrev pub accept_next :
        Option Peer
        → Option RunResult
        → Option (IoResult (Transport.Connection S))
        → HyperBroadcast
        → HyperBroadcast
    accept_next none none conn b = accept conn b
    accept_next _ _ conn b = b

    unfoldable pub step : Event S → HyperBroadcast → HyperBroadcast
    step (accepts conn) b = accept_next b.unsaved b.result conn b
    step saves b = save b.unsaved b
    step (broadcasts message) b = broadcast message b
    step (turns n) b =
        change (b.tasks n) n
          (λ task. record task { connection = turn stream outbound inbound task.connection }) b
    step (forwards n) b = forward n (b.tasks n) b
    step (leaves n) b = leave (b.tasks n) b

    unfoldable pub run : List (Event S) → HyperBroadcast → HyperBroadcast
    run [] b = b
    run (event ∷ events) b = run events (step event b)
