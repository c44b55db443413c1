-- ===== src/Transport/Sources/Opens.antt =====
-- src/transport/tcp.rs and src/transport/utp.rs: the connections opened, beside those asked for.
use hyperswarm_rs.Prelude.{
  ℕ, ◌+◌, ◌≤◌, ◌<◌, ◌≡◌, refl, ap, ◌∙◌, Bool, true, false, Option, none, some, List, [], ◌∷◌,
  IoResult, ok, err, pending, ready, Next, Outcome, returns, arith, length, length-append,
}
use hyperswarm_rs.Prelude.Outcomes.{>>=-eq-returns, subst_returns}
use hyperswarm_rs.Net.{SocketAddr}
use hyperswarm_rs.Transport.{Connection, Transport, FuturesUnordered}
use hyperswarm_rs.Transport.Calls.{Call, connects, polls, initiated, initiated_all, run}
use hyperswarm_rs.Transport.Sources.Cases.{Polled, came_in, opened, neither}

-- What the source relies on of a collection of futures: it begins empty, holds what is put in, and gives
-- an output for one of the futures, which it then no longer holds.
pub record IsCollection {U C A : Type 0} (futures : FuturesUnordered U C A) : Type 0 where
  pub size : U → ℕ
  pub new_empty : size futures.new ≡ 0
  pub push_one : (fut : C) (u : U) → size (futures.push fut u) ≡ size u + 1
  pub poll_less :
      (u : U) (a : A)
      → (futures.poll_next u).0 ≡ ready (some a)
      → size (futures.poll_next u).1 < size u
  pub poll_le : (u : U) → size (futures.poll_next u).1 ≤ size u

-- The calls that ask for a connection.
abbrev pub count_connects : List Call → ℕ
count_connects [] = 0
count_connects (connects addr ∷ calls) = count_connects calls + 1
count_connects (polls ∷ calls) = count_connects calls

initiated_le : {T : Type 0} (result : Next (Connection T)) → length (initiated result) ≤ 1
initiated_le pending = omega arith
initiated_le (ready none) = omega arith
initiated_le (ready (some (ok conn))) = ground arith
initiated_le (ready (some (err e))) = omega arith

-- What `into_connection` does: it makes a connection with the given side of a ready item only.
pub record Labels {X T : Type 0}
    (into_connection : Next X → Bool → Outcome (Option (IoResult (Connection T)))) : Type 0 where
  pub side :
      (next : Next X) (is_initiator : Bool) (conn : Connection T)
      → into_connection next is_initiator ≡ returns (some (ok conn))
      → conn.is_initiator ≡ is_initiator
  pub item :
      (next : Next X) (is_initiator : Bool) (res : IoResult (Connection T))
      → into_connection next is_initiator ≡ returns (some res)
      → (x : IoResult X) × (next ≡ ready (some x))

module _ {X T I U C : Type 0}
    {into_connection : Next X → Bool → Outcome (Option (IoResult (Connection T)))}
    (labels : Labels into_connection) (poll_incoming : I → Next X × I)
    {futures : FuturesUnordered U C (IoResult X)} (collection : IsCollection futures) where
  came_in-initiated :
      (next : Next X) (res : IoResult (Connection T))
      → into_connection next false ≡ returns (some res)
      → initiated (ready (some res)) ≡ []
  came_in-initiated next (ok conn) e = rw (labels.side next false conn e) refl
  came_in-initiated next (err x) e = refl

  pub Polled-opens :
      (i : I) (u : U) {result : Next (Connection T)} {i' : I} {u' : U}
      → Polled into_connection poll_incoming futures.poll_next i u result i' u'
      → length (initiated result) + collection.size u' ≤ collection.size u
  Polled-opens i u {result = result} (came_in conn e r same) =
      let none_opened : initiated result ≡ [] = ap initiated r ∙ came_in-initiated _ conn e in
      rw (none_opened, same) (omega arith)
  Polled-opens i u {result = result} (opened conn e r same) =
      let (x, given) = labels.item _ true conn e in
      rw same (omega (arith, initiated_le result, collection.poll_less u x given))
  Polled-opens i u {result = result} (neither e r same) =
      rw (r, same) (omega (arith, collection.poll_le u))

-- A transport of whose state `waiting` counts the connections that are being opened.
module _ {S T : Type 0} (t : Transport S T) (waiting : S → ℕ)
    (connect_one : (addr : SocketAddr) (s : S) → waiting (t.connect addr s) ≡ waiting s + 1)
    (poll_opens : (s s' : S) (result : Next (Connection T))
      → t.poll_next s ≡ returns (result, s')
      → length (initiated result) + waiting s' ≤ waiting s) where
  pub run-opens :
      (calls : List Call) (s : S) {results : List (Next (Connection T))} {s' : S}
      → run t calls s ≡ returns (results, s')
      → length (initiated_all results) + waiting s' ≤ waiting s + count_connects calls
  unfolding run
  run-opens [] s e =
      subst_returns (λ r u. length (initiated_all r) + waiting u ≤ waiting s + 0) e (omega arith)
  run-opens (connects addr ∷ calls) s e =
      omega (arith, run-opens calls (t.connect addr s) e, connect_one addr s)
  run-opens (polls ∷ calls) s e =
      let p = >>=-eq-returns (t.poll_next s) _ e in
      let q = >>=-eq-returns (run t calls p.0.1) _ p.2 in
      subst_returns (λ r u. length (initiated_all r) + waiting u ≤ waiting s + count_connects calls)
        q.2
        (omega (
          arith,
          length-append (initiated p.0.0) (initiated_all q.0.0),
          poll_opens s p.0.1 p.0.0 p.1,
          run-opens calls p.0.1 q.1,
        ))
