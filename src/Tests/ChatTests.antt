-- ===== src/Tests/ChatTests.antt =====
-- Runs of the models of `connection_loop` and `HyperBroadcast` of examples/hyperchat.rs.
use hyperswarm_rs.Prelude.{
  ℕ, zero, suc, ◌+◌, ◌<◌, ◌≡◌, refl, some, true, List, [], ◌∷◌, ◌++◌, ok, pending, String, arith,
  length, All, ◌⊎◌,
}
use hyperswarm_rs.Net.{SocketAddr}
use hyperswarm_rs.Channel.{list_channel, list_channel-IsFifo}
use hyperswarm_rs.Transport
use hyperswarm_rs.Hyperchat.{to_be_bytes, from_be_bytes, frame}
use hyperswarm_rs.Hyperchat.Connection.{
  Connection, Event, turns, forwards, queues, start, turn, turn_at, on_length, on_outbound,
  on_message, on_sent, on_written, run,
}
use hyperswarm_rs.Hyperchat.Framing.{frames}
use hyperswarm_rs.Hyperchat.Connection.Sends.{Sent, connection_loop-sends}
use hyperswarm_rs.Hyperchat.Connection.Books.{Got}
use hyperswarm_rs.Hyperchat.Connection.Receives.{connection_loop-receives}
use hyperswarm_rs.Hyperchat.Connection.Delivers.{
  Loses, connection_loop-delivers, connection_loop-delivers_one_way,
}
use hyperswarm_rs.Hyperchat.Broadcast
use hyperswarm_rs.Hyperchat.Broadcast.Peers.{Kept, run-new-IsValid}
use hyperswarm_rs.Hyperchat.Broadcast.Tasks.{Tells, told}
use hyperswarm_rs.Hyperchat.Broadcast.Tells.{run-Tells_all}
use hyperswarm_rs.Tests.Wire.{Wire, wire, wire_views, wire-IsStream}
use hyperswarm_rs.Hyperchat.Connection.Progress.{IsQuiet, turns_for, connection_loop-writes}
use hyperswarm_rs.Tests.Doubles.{peer}

abbrev Link : Type 0
Link = Connection Wire (ℕ × List ℕ) (List ℕ) (List (List ℕ)) (List (List ℕ))

abbrev link : List ℕ → List (List ℕ) → Link
link unread outbound = record {
  stage = start wire (list_channel {A = List ℕ}) (list_channel {A = List ℕ});
  stream = (unread, [], []);
  outbound = outbound;
  inbound = [];
}

abbrev run_link : List Event → Link → List (List ℕ) × Link
run_link = run wire list_channel list_channel

-- A name, then a message, are written.
abbrev writing_events : List Event
writing_events = turns ∷ queues (104 ∷ 105 ∷ []) ∷ turns ∷ turns ∷ turns ∷ []

connection_loop-sends_example :
    Sent wire-IsStream list_channel-IsFifo list_channel []
      ((110 ∷ []) ∷ (104 ∷ 105 ∷ []) ∷ [])
      (run_link writing_events (link [] ((110 ∷ []) ∷ []))).1
connection_loop-sends_example =
    connection_loop-sends wire-IsStream list_channel-IsFifo list_channel writing_events ([], [], [])
      [] ((110 ∷ []) ∷ []) refl

-- The bytes of both, as they arrive.
abbrev arrived : List ℕ
arrived = 0 ∷ 0 ∷ 0 ∷ 1 ∷ 110 ∷ 0 ∷ 0 ∷ 0 ∷ 2 ∷ 104 ∷ []

abbrev reading_events : List Event
reading_events =
    turns ∷ turns ∷ turns ∷ turns ∷ turns ∷ forwards ∷ turns ∷ turns ∷ turns ∷ turns ∷ turns ∷ []

connection_loop-receives_example :
    Got wire-IsStream list_channel-IsFifo list_channel-IsFifo [] []
      (run_link reading_events (link arrived [])).0
      0
      (run_link reading_events (link arrived [])).1
connection_loop-receives_example =
    connection_loop-receives wire-IsStream list_channel-IsFifo list_channel-IsFifo reading_events
      (arrived, [], []) [] [] refl

forwards_one : (run_link reading_events (link arrived [])).0 ≡ (110 ∷ []) ∷ []
unfolding run turn turn_at on_length on_outbound on_message from_be_bytes on_sent
forwards_one = refl

abbrev small :
    All (λ (text : List ℕ). length text < 4294967296) ((110 ∷ []) ∷ (104 ∷ 105 ∷ []) ∷ [])
small = (omega arith, (omega arith, tt))

-- The last byte is on its way.
all_but_one :
    wire_views.read (run_link reading_events (link arrived [])).1.stream ++ 105 ∷ []
    ≡ wire_views.sent (run_link writing_events (link [] ((110 ∷ []) ∷ []))).1.stream
unfolding run turn turn_at on_length on_outbound on_message from_be_bytes on_sent on_written frame
    to_be_bytes
all_but_one = refl

connection_loop-delivers_example :
    (got : Got wire-IsStream list_channel-IsFifo list_channel-IsFifo [] []
      (run_link reading_events (link arrived [])).0
      0
      (run_link reading_events (link arrived [])).1)
    × (Loses got.pieces
        ⊎ ((others : List (List ℕ)) × ((run_link reading_events (link arrived [])).0
                ++ (run_link reading_events (link arrived [])).1.inbound
                ++ others
              ≡ (110 ∷ []) ∷ (104 ∷ 105 ∷ []) ∷ [])))
connection_loop-delivers_example =
    connection_loop-delivers wire-IsStream list_channel-IsFifo list_channel-IsFifo writing_events
      reading_events ([], [], []) (arrived, [], []) ((110 ∷ []) ∷ []) [] [] [] (105 ∷ []) refl refl
      refl refl refl all_but_one small

connection_loop-delivers_one_way_example :
    (others : List (List ℕ)) × ((run_link reading_events (link arrived [])).0
        ++ (run_link reading_events (link arrived [])).1.inbound
        ++ others
      ≡ (110 ∷ []) ∷ (104 ∷ 105 ∷ []) ∷ [])
connection_loop-delivers_one_way_example =
    connection_loop-delivers_one_way wire-IsStream list_channel-IsFifo list_channel-IsFifo
      writing_events reading_events ([], [], []) (arrived, [], []) ((110 ∷ []) ∷ []) [] [] []
      (105 ∷ []) refl refl refl refl refl refl all_but_one small

-- Nothing comes in.
abbrev Still : Wire → Type 0
Still (unread, read, sent) = unread ≡ []

wire_waits :
    (n : ℕ) (so_far : List ℕ) (s : Wire)
    → Still s
    → length so_far < length so_far + n
    → ((wire.poll_read (n, so_far) s).0 ≡ pending) × Still (wire.poll_read (n, so_far) s).2
wire_waits zero so_far s still short = absurd (omega arith)
wire_waits (suc n) so_far ([], read, sent) still short = (refl, refl)
wire_waits (suc n) so_far (b ∷ unread, read, sent) still short = absurd cc

abbrev wire-IsQuiet : IsQuiet wire-IsStream Still
wire-IsQuiet = record {
  waits = λ (n, so_far) s still short. wire_waits n so_far s still short;
  takes = λ bytes s still. (refl, still);
}

abbrev two_queued : List (List ℕ)
two_queued = (110 ∷ []) ∷ (104 ∷ 105 ∷ []) ∷ []

connection_loop-writes_example :
    ((run_link (turns_for two_queued) (link [] two_queued)).1.outbound ≡ [])
    × (wire_views.sent (run_link (turns_for two_queued) (link [] two_queued)).1.stream
        ≡ [] ++ frames two_queued)
connection_loop-writes_example =
    connection_loop-writes wire-IsStream wire-IsQuiet list_channel-IsFifo list_channel ([], [], [])
      two_queued [] refl

abbrev format : String → SocketAddr → String
format protocol addr = protocol

abbrev Chat : Type 0
Chat = Broadcast.HyperBroadcast format wire (list_channel {A = List ℕ}) (list_channel {A = List ℕ})

abbrev new_chat : Chat
new_chat = Broadcast.new format wire list_channel list_channel (110 ∷ [])

abbrev chat_events : List (Broadcast.Event Wire)
chat_events =
    Broadcast.accepts (
      some (
        ok (record {
          inner = ([], [], []);
          peer_addr = peer 1;
          is_initiator = true;
          protocol = "tcp";
        })))
    ∷ Broadcast.broadcasts (103 ∷ [])
    ∷ Broadcast.saves
    ∷ Broadcast.broadcasts (104 ∷ 105 ∷ [])
    ∷ Broadcast.turns 0
    ∷ []

run-new-IsValid_example :
    Kept format wire list_channel list_channel
      (110 ∷ [])
      (Broadcast.run format wire list_channel list_channel chat_events new_chat)
run-new-IsValid_example =
    run-new-IsValid format wire list_channel list_channel (110 ∷ []) chat_events

abbrev stream_of_two : Transport.Connection Wire
stream_of_two = record {
  inner = ([], [], []);
  peer_addr = peer 2;
  is_initiator = true;
  protocol = "utp";
}

abbrev later : List (Broadcast.Event Wire)
later =
    Broadcast.saves
    ∷ Broadcast.turns 1
    ∷ Broadcast.broadcasts (33 ∷ [])
    ∷ Broadcast.turns 1
    ∷ Broadcast.turns 1
    ∷ []

abbrev chat : Chat
chat = Broadcast.run format wire list_channel list_channel chat_events new_chat

abbrev joined : Chat
joined =
    Broadcast.step format wire list_channel list_channel
      (Broadcast.accepts (some (ok stream_of_two))) chat

all_told :
    told format wire-IsStream list_channel-IsFifo list_channel 1 later joined ≡ (33 ∷ []) ∷ []
unfolding Broadcast.step Broadcast.save Broadcast.run Broadcast.broadcast Broadcast.send_each
    Broadcast.new Broadcast.accept Broadcast.on_initial Broadcast.spawn Broadcast.send_message turn
    turn_at on_length on_outbound
all_told = refl

run-Tells_all_example :
    Tells format wire-IsStream list_channel-IsFifo list_channel 1 []
      ((110 ∷ []) ∷ told format wire-IsStream list_channel-IsFifo list_channel 1 later joined)
      (Broadcast.run format wire list_channel list_channel later joined)
unfolding Broadcast.step Broadcast.save Broadcast.run Broadcast.broadcast Broadcast.send_each
    Broadcast.new Broadcast.accept Broadcast.on_initial Broadcast.spawn Broadcast.send_message
run-Tells_all_example =
    run-Tells_all format wire-IsStream list_channel-IsFifo list_channel (110 ∷ []) chat_events later
      stream_of_two {b = chat} refl refl refl
