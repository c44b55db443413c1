-- ===== src/Transport/Combined/Ledger.antt =====
-- src/transport/combined.rs: what becomes of the result of one part.

use hyperswarm_rs.Prelude.{
  ◌≡◌, refl, true, Option, none, some, List, [], ◌∷◌, ◌++◌, append_assoc, IoResult, ok, err,
  pending, ready, Next, arith, if◌then◌else◌, ◌||◌,
}
use hyperswarm_rs.Net.{SocketAddr}
use hyperswarm_rs.Transport.{Connection}
use hyperswarm_rs.Transport.Calls.{initiated, initiated_all}
use hyperswarm_rs.Transport.Combined.{
  CombinedTransport, CombinedStream, contains, insert, on_poll_connection,
}

-- The connection that a result has accepted from a peer.
abbrev pub incoming : {T : Type 0} → Next (Connection T) → List (Connection T)
incoming (ready (some (ok conn))) = if conn.is_initiator then [] else conn ∷ []
incoming _ = []

abbrev pub incoming_all : {T : Type 0} → List (Next (Connection T)) → List (Connection T)
incoming_all [] = []
incoming_all (result ∷ results) = incoming result ++ incoming_all results

-- A connection as that of a TCP stream, or of a uTP stream.
abbrev pub over_tcp : {T₁ T₂ : Type 0} → Connection (CombinedStream T₁ T₂) → List (Connection T₁)
over_tcp conn = elim conn.inner [
  | CombinedStream.tcp stream ↦
      record {
        inner = stream;
        peer_addr = conn.peer_addr;
        is_initiator = conn.is_initiator;
        protocol = conn.protocol;
      }
      ∷ []
  | CombinedStream.utp stream ↦ []
]

abbrev pub over_utp : {T₁ T₂ : Type 0} → Connection (CombinedStream T₁ T₂) → List (Connection T₂)
over_utp conn = elim conn.inner [
  | CombinedStream.tcp stream ↦ []
  | CombinedStream.utp stream ↦
      record {
        inner = stream;
        peer_addr = conn.peer_addr;
        is_initiator = conn.is_initiator;
        protocol = conn.protocol;
      }
      ∷ []
]

-- The connections that `via` makes of a list.
abbrev pub all_over : {A B : Type 0} → (A → List B) → List A → List B
all_over via [] = []
all_over via (conn ∷ conns) = via conn ++ all_over via conns

pub incoming_all-append :
    {T : Type 0} (xs ys : List (Next (Connection T)))
    → incoming_all (xs ++ ys) ≡ incoming_all xs ++ incoming_all ys
incoming_all-append [] ys = refl
incoming_all-append (x ∷ xs) ys = simp (incoming_all-append xs ys, append_assoc)

pub initiated_all-append :
    {T : Type 0} (xs ys : List (Next (Connection T)))
    → initiated_all (xs ++ ys) ≡ initiated_all xs ++ initiated_all ys
initiated_all-append [] ys = refl
initiated_all-append (x ∷ xs) ys = simp (initiated_all-append xs ys, append_assoc)

pub all_over-append :
    {A B : Type 0} (via : A → List B) (xs ys : List A)
    → all_over via (xs ++ ys) ≡ all_over via xs ++ all_over via ys
all_over-append via [] ys = refl
all_over-append via (x ∷ xs) ys = simp (all_over-append via xs ys, append_assoc)

-- The result of a poll that accepts the connection, or does not.
abbrev pub result_of : {T : Type 0} → Option (IoResult (Connection T)) → Next (Connection T)
result_of none = pending
result_of (some res) = ready (some res)

pub contains-append :
    (xs ys : List SocketAddr) (addr : SocketAddr)
    → contains (xs ++ ys) addr ≡ (contains xs addr || contains ys addr)
contains-append [] ys addr = refl
contains-append (x ∷ xs) ys addr = ground (arith, contains-append xs ys addr)

contains_snoc :
    (xs : List SocketAddr) (x addr : SocketAddr)
    → contains (x ∷ []) addr ≡ true
    → contains (insert xs x) addr ≡ true
contains_snoc xs x addr e = ground (arith, contains-append xs (x ∷ []) addr)

-- Every address of the first list is in the second.
abbrev pub Within : List SocketAddr → List SocketAddr → Type 0
Within xs ys = (addr : SocketAddr) → contains xs addr ≡ true → contains ys addr ≡ true

pub Within-append :
    (xs xs' ys zs : List SocketAddr)
    → Within xs ys
    → Within ys zs
    → Within xs' zs
    → Within (xs ++ xs') zs
Within-append xs xs' ys zs f g h addr e =
    ground (arith, contains-append xs xs' addr, f addr, g addr, h addr)

pub Within-more : (xs ys : List SocketAddr) → Within xs (xs ++ ys)
Within-more xs ys addr e = rw (contains-append xs ys addr, e) refl

module _ {S₁ S₂ T₁ T₂ : Type 0} where
  pub tcp_incoming :
      (next : Next (Connection T₁)) (s : CombinedTransport S₁ S₂)
      → let (found, s') = on_poll_connection {T₁ = T₁} {T₂ = T₂} next CombinedStream.tcp s in
        (all_over over_tcp (incoming (result_of found)) ≡ incoming next)
        × (all_over over_utp (incoming (result_of found)) ≡ [])
        × (s'.tcp ≡ s.tcp)
        × (s'.utp ≡ s.utp)
  unfolding on_poll_connection
  tcp_incoming pending s = (refl, refl, refl, refl)
  tcp_incoming (ready none) s = (refl, refl, refl, refl)
  tcp_incoming (ready (some (err e))) s = (refl, refl, refl, refl)
  tcp_incoming (ready (some (ok conn))) s = ground arith

  pub utp_incoming :
      (next : Next (Connection T₂)) (s : CombinedTransport S₁ S₂)
      → let (found, s') = on_poll_connection {T₁ = T₁} {T₂ = T₂} next CombinedStream.utp s in
        (all_over over_tcp (incoming (result_of found)) ≡ [])
        × (all_over over_utp (incoming (result_of found)) ≡ incoming next)
        × (s'.tcp ≡ s.tcp)
        × (s'.utp ≡ s.utp)
  unfolding on_poll_connection
  utp_incoming pending s = (refl, refl, refl, refl)
  utp_incoming (ready none) s = (refl, refl, refl, refl)
  utp_incoming (ready (some (err e))) s = (refl, refl, refl, refl)
  utp_incoming (ready (some (ok conn))) s = ground arith

  -- The peer of an opened connection is in the set afterwards.
  pub initiated_known :
      {T : Type 0} (map : T → CombinedStream T₁ T₂) (next : Next (Connection T))
      (s : CombinedTransport S₁ S₂) (addr : SocketAddr)
      → contains (initiated next) addr ≡ true
      → contains (on_poll_connection next map s).1.connected addr ≡ true
  unfolding on_poll_connection
  initiated_known map pending s addr e = cc
  initiated_known map (ready none) s addr e = cc
  initiated_known map (ready (some (err x))) s addr e = cc
  initiated_known map (ready (some (ok conn))) s addr e =
      ground (arith, contains_snoc s.connected conn.peer_addr addr)
