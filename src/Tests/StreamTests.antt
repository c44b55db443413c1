-- ===== src/Tests/StreamTests.antt =====
-- Runs of the models of src/transport/tcp.rs and src/transport/utp.rs under that of
-- src/transport/combined.rs.
use hyperswarm_rs.Prelude.{
  ◌≡◌, refl, true, false, some, List, [], ◌∷◌, ok, ready, Next, returns, All, length, ◌≤◌, Bool,
}
use hyperswarm_rs.Net.{SocketAddr, SocketAddr-discrete}
use hyperswarm_rs.Transport.{Connection, connection}
use hyperswarm_rs.Transport.Calls.{Call, connects, polls, initiated_all, run}
use hyperswarm_rs.Transport.Sources.Opens.{count_connects}
use hyperswarm_rs.Transport.Opens.{tcp_run-opens, utp_run-opens}
use hyperswarm_rs.Transport.Tcp.{TcpTransport, tcp_transport}
use hyperswarm_rs.Transport.Tcp as OverTcp
use hyperswarm_rs.Transport.Utp.{UtpTransport, UtpStream, stream_new, utp_transport}
use hyperswarm_rs.Transport.Utp as OverUtp
use hyperswarm_rs.Transport.Combined.{
  CombinedTransport, CombinedStream, combined_transport, connect, poll_next,
}
use hyperswarm_rs.Transport.Stream.Labels.{Handed}
use hyperswarm_rs.Transport.Stream.Agreement.{Agrees, run-Agrees}
use hyperswarm_rs.Tests.Doubles.{peer, addressed_tcp, addressed_utp, in_order-IsCollection}

abbrev Transports : Type 0
Transports =
    CombinedTransport (TcpTransport (List SocketAddr) (List SocketAddr))
      (UtpTransport (List SocketAddr) (List SocketAddr) (List SocketAddr))

-- The peer 2 comes in over TCP, and the peer 3 over uTP.
abbrev start : Transports
start = record {
  tcp = record {
    addr = peer 0;
    incoming = record { local_addr = peer 0; accept = peer 2 ∷ [] };
    pending_connects = [];
  };
  utp = record { context = []; pending_connects = []; incoming = peer 3 ∷ [] };
  local_addr = peer 0;
  connected = [];
}

abbrev session : List Call
session = connects (peer 1) ∷ polls ∷ polls ∷ polls ∷ []

abbrev end_state : Transports
end_state = record {
  tcp = record {
    addr = peer 0;
    incoming = record { local_addr = peer 0; accept = [] };
    pending_connects = [];
  };
  utp = record { context = []; pending_connects = peer 1 ∷ []; incoming = [] };
  local_addr = peer 0;
  connected = peer 1 ∷ [];
}

abbrev outcomes : List (Next (Connection (CombinedStream SocketAddr (UtpStream SocketAddr))))
outcomes =
    ready (
      some (
        ok (record {
          inner = CombinedStream.tcp (peer 2);
          peer_addr = peer 2;
          is_initiator = false;
          protocol = "tcp";
        })))
    ∷ ready (
        some (
          ok (record {
            inner = CombinedStream.tcp (peer 1);
            peer_addr = peer 1;
            is_initiator = true;
            protocol = "tcp";
          })))
    ∷ ready (
        some (
          ok (record {
            inner = CombinedStream.utp (stream_new (peer 3));
            peer_addr = peer 3;
            is_initiator = false;
            protocol = "utp";
          })))
    ∷ []

session_runs :
    run
      (combined_transport (tcp_transport addressed_tcp) (utp_transport addressed_utp))
      session
      start
    ≡ returns (outcomes, end_state)
unfolding run connect poll_next SocketAddr-discrete OverTcp.poll_next OverUtp.poll_next
    OverTcp.connect OverUtp.connect
session_runs = refl

run-Agrees_example : All (Handed (Agrees addressed_tcp addressed_utp)) outcomes
run-Agrees_example = run-Agrees addressed_tcp addressed_utp session start session_runs

-- Two addresses are asked for, and one connection is opened before a peer comes in.
abbrev two_calls : List Call
two_calls = connects (peer 1) ∷ polls ∷ connects (peer 4) ∷ polls ∷ polls ∷ []

abbrev tcp_start : TcpTransport (List SocketAddr) (List SocketAddr)
tcp_start = record {
  addr = peer 0;
  incoming = record { local_addr = peer 0; accept = peer 2 ∷ [] };
  pending_connects = [];
}

abbrev tcp_end : TcpTransport (List SocketAddr) (List SocketAddr)
tcp_end = record {
  addr = peer 0;
  incoming = record { local_addr = peer 0; accept = [] };
  pending_connects = [];
}

abbrev tcp_conn : SocketAddr → Bool → Next (Connection SocketAddr)
tcp_conn addr is_initiator = ready (
    some (
      ok
        (record { inner = addr; peer_addr = addr; is_initiator = is_initiator; protocol = "tcp" })))

abbrev tcp_outcomes : List (Next (Connection SocketAddr))
tcp_outcomes = tcp_conn (peer 2) false ∷ tcp_conn (peer 1) true ∷ tcp_conn (peer 4) true ∷ []

tcp_runs : run (tcp_transport addressed_tcp) two_calls tcp_start ≡ returns (tcp_outcomes, tcp_end)
unfolding run OverTcp.poll_next OverTcp.connect connection
tcp_runs = refl

tcp_run-opens_example : length (initiated_all tcp_outcomes) ≤ count_connects two_calls
unfolding OverTcp.bind
tcp_run-opens_example =
    tcp_run-opens addressed_tcp in_order-IsCollection (ok (peer 0 ∷ [])) (λ addr. ok (peer 2 ∷ []))
      two_calls {s = tcp_start} refl tcp_runs

abbrev utp_start : UtpTransport (List SocketAddr) (List SocketAddr) (List SocketAddr)
utp_start = record { context = peer 3 ∷ []; pending_connects = []; incoming = peer 3 ∷ [] }

abbrev utp_end : UtpTransport (List SocketAddr) (List SocketAddr) (List SocketAddr)
utp_end = record { context = peer 3 ∷ []; pending_connects = []; incoming = [] }

abbrev utp_conn : SocketAddr → Bool → Next (Connection (UtpStream SocketAddr))
utp_conn addr is_initiator = ready (
    some (
      ok (record {
        inner = stream_new addr;
        peer_addr = addr;
        is_initiator = is_initiator;
        protocol = "utp";
      })))

abbrev utp_outcomes : List (Next (Connection (UtpStream SocketAddr)))
utp_outcomes = utp_conn (peer 3) false ∷ utp_conn (peer 1) true ∷ utp_conn (peer 4) true ∷ []

utp_runs : run (utp_transport addressed_utp) two_calls utp_start ≡ returns (utp_outcomes, utp_end)
unfolding run OverUtp.poll_next OverUtp.connect connection
utp_runs = refl

utp_run-opens_example : length (initiated_all utp_outcomes) ≤ count_connects two_calls
unfolding OverUtp.bind
utp_run-opens_example =
    utp_run-opens addressed_utp in_order-IsCollection (ok (peer 0 ∷ [])) (λ addr. ok (peer 3 ∷ []))
      two_calls {s = utp_start} refl utp_runs
