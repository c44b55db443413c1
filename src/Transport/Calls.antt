-- ===== src/Transport/Calls.antt =====
-- What a client does with a transport, an implementation of the trait of src/transport/mod.rs, and what
-- comes of it.
use hyperswarm_rs.Prelude.{
  List, [], ◌∷◌, ◌++◌, some, ok, ready, Next, Outcome, returns, if◌then◌else◌,
}
use hyperswarm_rs.Prelude.Outcomes
use hyperswarm_rs.Net.{SocketAddr}
use hyperswarm_rs.Transport.{Connection, Transport}

pub data Call : Type 0 where
  connects : SocketAddr → Call
  polls : Call

-- The address that a result of a poll has opened a connection to.
abbrev pub initiated : {T : Type 0} → Next (Connection T) → List SocketAddr
initiated (ready (some (ok conn))) = if conn.is_initiator then conn.peer_addr ∷ [] else []
initiated _ = []

abbrev pub initiated_all : {T : Type 0} → List (Next (Connection T)) → List SocketAddr
initiated_all [] = []
initiated_all (result ∷ results) = initiated result ++ initiated_all results

-- The calls in turn, with the results of the polls.
unfoldable pub run :
    {S T : Type 0} → Transport S T → List Call → S → Outcome (List (Next (Connection T)) × S)
run t [] s = returns ([], s)
run t (connects addr ∷ calls) s = run t calls (t.connect addr s)
run t (polls ∷ calls) s = Outcomes.◌>>=◌ (t.poll_next s) λ (result, s').
    Outcomes.◌>>=◌ (run t calls s') λ (results, s''). returns (result ∷ results, s'')
