-- ===== src/Discovery/Dht/Logged.antt =====
-- A table that keeps a record of what it was asked and what it answered, over any `HyperDht` of
-- src/discovery/dht.rs, and what the record says.
use hyperswarm_rs.Prelude.{
  ℕ, ◌≡◌, refl, Bool, true, false, ◌||◌, Option, none, some, List, [], ◌∷◌, ◌++◌, map, Poll,
  pending, ready, append_assoc, arith,
}
use hyperswarm_rs.Discovery.{PeerInfo, peer_info, dht}
use hyperswarm_rs.Discovery.Calls.{Call, looks_up, announces, polls}
use hyperswarm_rs.Discovery.Dht.{
  HyperDhtEvent, bootstrapped, lookup_result, HyperDht, Command, lookup, announce, query_opts,
}

pub record Logged (D : Type 0) : Type 0 where
  pub inner : D
  pub issued : List Command
  pub seen : List HyperDhtEvent

abbrev pub event_in : Poll (Option HyperDhtEvent) → List HyperDhtEvent
event_in pending = []
event_in (ready none) = []
event_in (ready (some event)) = event ∷ []

abbrev pub logged : {D : Type 0} → HyperDht D → HyperDht (Logged D)
logged hyper = record {
  announce = λ opts l. record l {
    inner = hyper.announce opts l.inner;
    issued = l.issued ++ announce opts ∷ [];
  };
  lookup = λ opts l. record l {
    inner = hyper.lookup opts l.inner;
    issued = l.issued ++ lookup opts ∷ [];
  };
  poll_next = λ l.
      let (polled, d) = hyper.poll_next l.inner in
      (polled, record l { inner = d; seen = l.seen ++ event_in polled });
}

-- The peers that an event brings, in order.
abbrev pub peers_of : HyperDhtEvent → List PeerInfo
peers_of (lookup_result l) = map (λ addr. peer_info addr (some l.topic) dht) l.remotes
peers_of _ = []

abbrev pub found : List HyperDhtEvent → List PeerInfo
found [] = []
found (event ∷ events) = peers_of event ++ found events

abbrev pub is_bootstrap : HyperDhtEvent → Bool
is_bootstrap bootstrapped = true
is_bootstrap _ = false

-- Whether the table has announced that it is bootstrapped.
abbrev pub saw_bootstrap : List HyperDhtEvent → Bool
saw_bootstrap [] = false
saw_bootstrap (event ∷ events) = is_bootstrap event || saw_bootstrap events

pub found-append : (xs ys : List HyperDhtEvent) → found (xs ++ ys) ≡ found xs ++ found ys
found-append [] ys = refl
found-append (x ∷ xs) ys = simp (found-append xs ys, append_assoc)

pub saw_bootstrap-append :
    (xs ys : List HyperDhtEvent) → saw_bootstrap (xs ++ ys) ≡ saw_bootstrap xs || saw_bootstrap ys
saw_bootstrap-append [] ys = refl
saw_bootstrap-append (x ∷ xs) ys = ground (arith, saw_bootstrap-append xs ys)

-- The commands that the calls ask for, in order.
abbrev pub requested : ℕ → List Call → List Command
requested port [] = []
requested port (looks_up topic ∷ calls) = lookup (query_opts port topic) ∷ requested port calls
requested port (announces topic ∷ calls) = announce (query_opts port topic) ∷ requested port calls
requested port (polls ∷ calls) = requested port calls
