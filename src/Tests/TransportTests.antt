-- ===== src/Tests/TransportTests.antt =====
-- Runs of the model of src/transport/combined.rs.
use mathlib.Core.List.{Nodup, Nodup-nil}
use hyperswarm_rs.Prelude.{
  ◌↔◌, none, ℕ, ◌≡◌, refl, Bool, true, false, some, List, [], ◌∷◌, ◌++◌, ok, pending, ready, Next,
  returns,
}
use hyperswarm_rs.Net.{SocketAddr, SocketAddr-discrete}
use hyperswarm_rs.Transport.{Connection}
use hyperswarm_rs.Transport.Calls.{Call, connects, polls, initiated_all, run}
use hyperswarm_rs.Transport.Combined.{
  bind, unwrap_socket_addr, CombinedTransport, CombinedStream, combined_transport, connect,
  poll_next,
}
use hyperswarm_rs.Transport.Recording.{recording}
use hyperswarm_rs.Transport.Combined.Dedup.{run-connected}
use hyperswarm_rs.Transport.Combined.Passes.{Watched}
use hyperswarm_rs.Transport.Combined.Silence.{IsSilent, poll_next-IsSilent}
use hyperswarm_rs.Transport.Combined.Lossless.{Lossless, bind-Lossless}
use hyperswarm_rs.Transport.Utp.{UtpStream, stream_new}
use hyperswarm_rs.Transport.Stream.{AsyncStream}
use hyperswarm_rs.Transport.Stream.Transparent.{
  Act, reads, writes, flushes, closes, perform, over, all_io, perform-transparent,
}
use hyperswarm_rs.Tests.Doubles.{peer, scripted_transport}

abbrev Script : Type 0
Script = List SocketAddr × List (Next (Connection ℕ))

-- A connection to or from a peer.
abbrev with : ℕ → Bool → Next (Connection ℕ)
with n initiator = ready (
    some
      (ok (record { inner = n; peer_addr = peer n; is_initiator = initiator; protocol = "tcp" })))

-- The peer 1 is reached over both protocols, and comes in over uTP too.
abbrev start : CombinedTransport Script Script
start = record {
  tcp = ([], with 1 true ∷ []);
  utp = ([], with 1 true ∷ with 1 false ∷ []);
  local_addr = peer 0;
  connected = [];
}

abbrev session : List Call
session = connects (peer 1) ∷ polls ∷ polls ∷ polls ∷ []

abbrev end_state : CombinedTransport Script Script
end_state = record {
  tcp = (peer 1 ∷ [], []);
  utp = (peer 1 ∷ [], []);
  local_addr = peer 0;
  connected = peer 1 ∷ [];
}

abbrev stream_of : CombinedStream ℕ ℕ → Bool → Next (Connection (CombinedStream ℕ ℕ))
stream_of s initiator = ready (
    some
      (ok (record { inner = s; peer_addr = peer 1; is_initiator = initiator; protocol = "tcp" })))

-- The second connection to the peer is left out, and the incoming one is not.
abbrev outcomes : List (Next (Connection (CombinedStream ℕ ℕ)))
outcomes =
    stream_of (CombinedStream.tcp 1) true ∷ pending ∷ stream_of (CombinedStream.utp 1) false ∷ []

session_runs :
    run (combined_transport scripted_transport scripted_transport) session start
    ≡ returns (outcomes, end_state)
unfolding run connect poll_next SocketAddr-discrete
session_runs = refl

run-connected_example :
    (end_state.connected ≡ start.connected ++ initiated_all outcomes) × Nodup end_state.connected
run-connected_example =
    run-connected scripted_transport scripted_transport session start Nodup-nil session_runs

-- The same, over parts that keep records.
abbrev bound : Watched Script ℕ Script ℕ
bound = record {
  tcp = record { inner = start.tcp; dialled = []; results = [] };
  utp = record { inner = start.utp; dialled = []; results = [] };
  local_addr = peer 0;
  connected = [];
}

abbrev left : Watched Script ℕ Script ℕ
left = record {
  tcp = record {
    inner = end_state.tcp;
    dialled = peer 1 ∷ [];
    results = with 1 true ∷ pending ∷ pending ∷ [];
  };
  utp = record {
    inner = end_state.utp;
    dialled = peer 1 ∷ [];
    results = with 1 true ∷ with 1 false ∷ [];
  };
  local_addr = peer 0;
  connected = peer 1 ∷ [];
}

recorded_runs :
    run
      (combined_transport (recording scripted_transport) (recording scripted_transport))
      session
      bound
    ≡ returns (outcomes, left)
unfolding run connect poll_next SocketAddr-discrete
recorded_runs = refl

bind-Lossless_example : Lossless outcomes left
unfolding bind unwrap_socket_addr
bind-Lossless_example =
    bind-Lossless scripted_transport scripted_transport (λ wanted. start.tcp) (λ r. peer 0)
      (λ local. start.utp) none session {s = bound} refl recorded_runs

-- A stream that keeps what is written to it, and gives it back.
abbrev echo : AsyncStream (List ℕ)
echo = record {
  poll_read = λ n bytes. (ready (ok bytes), []);
  poll_write = λ more bytes. (ready (ok 1), bytes ++ more);
  poll_flush = λ bytes. (pending, bytes);
  poll_close = λ bytes. (ready (ok tt), []);
}

abbrev socket : Connection (CombinedStream (List ℕ) (UtpStream (List ℕ)))
socket = record {
  inner = CombinedStream.tcp [];
  peer_addr = peer 1;
  is_initiator = true;
  protocol = "tcp";
}

abbrev acts : List Act
acts = writes (4 ∷ []) ∷ flushes ∷ writes (5 ∷ []) ∷ reads 8 ∷ closes ∷ []

perform-transparent_example :
    ((t : List ℕ)
      → perform (all_io echo echo socket) acts (record socket { inner = CombinedStream.tcp t })
        ≡ over (λ s. record socket { inner = CombinedStream.tcp s }) (perform echo acts t))
    × ((t : List ℕ)
        → perform
            (all_io echo echo socket)
            acts
            (record socket { inner = CombinedStream.utp (stream_new t) })
          ≡ over
              (λ s. record socket { inner = CombinedStream.utp (stream_new s) })
              (perform echo acts t))
perform-transparent_example = perform-transparent echo echo socket acts

-- A second connection to the peer 1 comes about over TCP, and one to the peer 2 after it.
abbrev doubled : CombinedTransport Script Script
doubled = record {
  tcp = ([], with 1 true ∷ with 2 true ∷ []);
  utp = ([], []);
  local_addr = peer 0;
  connected = peer 1 ∷ [];
}

poll_next-IsSilent_example :
    (poll_next scripted_transport scripted_transport doubled
      ≡ returns (pending, record doubled { tcp = ([], with 2 true ∷ []); utp = ([], []) }))
    ↔ (IsSilent (peer 1 ∷ []) (with 1 true) × IsSilent {T = ℕ} (peer 1 ∷ []) pending)
poll_next-IsSilent_example =
    poll_next-IsSilent scripted_transport scripted_transport doubled (with 1 true)
      ([], with 2 true ∷ []) pending ([], []) refl refl
