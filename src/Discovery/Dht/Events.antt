-- ===== src/Discovery/Dht/Events.antt =====
-- src/discovery/dht.rs: an event, and the commands that are carried out, in closed form.
use hyperswarm_rs.Prelude.{
  ◌≡◌, refl, ◌∙◌, Bool, true, false, ◌||◌, some, List, [], ◌∷◌, ◌++◌, map, append-nil, append_assoc,
}
use hyperswarm_rs.Net.{SocketAddr}
use hyperswarm_rs.Discovery.{Topic, peer_info, dht}
use hyperswarm_rs.Discovery.Dht.{
  HyperDhtEvent, bootstrapped, announce_result, un_announce_result, other, lookup_result, HyperDht,
  Command, lookup, announce, DhtDiscovery, push_peers, on_event, execute,
}
use hyperswarm_rs.Discovery.Dht.Logged.{Logged, logged, peers_of, is_bootstrap}

pub or_true : (b : Bool) → b || true ≡ true
or_true true = refl
or_true false = refl

pub or_false : (b : Bool) → b || false ≡ b
or_false true = refl
or_false false = refl

module _ {D : Type 0} where
  -- The loop over the remotes appends them.
  pub push_peers-append :
      (topic : Topic) (peers : List SocketAddr) (s : DhtDiscovery D)
      → push_peers topic peers s ≡ record s {
        pending_events = s.pending_events ++ map (λ addr. peer_info addr (some topic) dht) peers;
      }
  unfolding push_peers
  push_peers-append topic [] s = rw append-nil
  push_peers-append topic (addr ∷ peers) s = push_peers-append topic peers _ ∙ rw append_assoc

  -- An event appends its peers, and may set the flag.
  pub on_event_lem :
      (event : HyperDhtEvent) (s : DhtDiscovery D)
      → on_event event s ≡ record s {
        is_bootstrapped = s.is_bootstrapped || is_bootstrap event;
        pending_events = s.pending_events ++ peers_of event;
      }
  unfolding on_event
  on_event_lem bootstrapped s = rw (append-nil, or_true)
  on_event_lem announce_result s = rw (append-nil, or_false)
  on_event_lem un_announce_result s = rw (append-nil, or_false)
  on_event_lem other s = rw (append-nil, or_false)
  on_event_lem (lookup_result l) s = push_peers-append l.topic l.remotes s ∙ rw or_false

module _ {D : Type 0} (hyper : HyperDht D) where
  pub execute-logged :
      (commands : List Command) (l : Logged D)
      → execute (logged hyper) commands l
        ≡ record l { inner = execute hyper commands l.inner; issued = l.issued ++ commands }
  unfolding execute
  execute-logged [] l = rw append-nil
  execute-logged (announce opts ∷ commands) l = execute-logged commands _ ∙ rw append_assoc
  execute-logged (lookup opts ∷ commands) l = execute-logged commands _ ∙ rw append_assoc
