-- ===== src/Discovery/Dht.antt =====
-- src/discovery/dht.rs: discovery over the distributed hash table.
-- `HyperDht` is another crate's: its operations are the parameter `hyper` of every definition.
pub mod Logged
pub mod Rule
pub mod Events
pub mod Accounts
pub mod Polls
pub mod Termination
use hyperswarm_rs.Prelude.{
  ℕ, zero, suc, ◌≡◌, refl, Bool, true, false, Option, none, some, List, [], ◌∷◌, ◌++◌, IoResult, ok,
  err, Poll, pending, ready, Next, Outcome, returns, panics, out_of_fuel, if◌then◌else◌,
}
use hyperswarm_rs.Prelude.Io
use hyperswarm_rs.Net.{SocketAddr}
use hyperswarm_rs.Discovery.{Topic, PeerInfo, peer_info, dht, Discovery}

-- hyperswarm_dht::QueryOpts, with the fields that the source fills.
pub record QueryOpts : Type 0 where
  pub topic : Topic
  pub port : Option ℕ
  pub local_addr : Option SocketAddr

-- The answer to a lookup, as far as the source reads it.
pub record Lookup : Type 0 where
  pub topic : Topic
  pub remotes : List SocketAddr

-- hyperswarm_dht::HyperDhtEvent as the source's `match` sees it; `other` is its `_`.
pub data HyperDhtEvent : Type 0 where
  bootstrapped announce_result un_announce_result other : HyperDhtEvent
  lookup_result : Lookup → HyperDhtEvent

-- hyperswarm_dht::HyperDht over a state `D`, which holds all that its next polls depend on.
pub record HyperDht (D : Type 0) : Type 0 where
  pub announce : QueryOpts → D → D
  pub lookup : QueryOpts → D → D
  pub poll_next : D → Poll (Option HyperDhtEvent) × D

pub data Command : Type 0 where
  lookup announce : QueryOpts → Command

pub record DhtDiscovery (D : Type 0) : Type 0 where
  pub state : D
  pub is_bootstrapped : Bool
  pub announce_port : ℕ
  pub pending_commands : List Command
  pub pending_events : List PeerInfo

-- `bind`, given what `HyperDht::with_config(config).await` results in.
unfoldable pub bind : {D : Type 0} → IoResult D → ℕ → IoResult (DhtDiscovery D)
bind {D} with_config announce_port = Io.◌>>=◌ with_config λ (state : D). ok (record {
  state = state;
  is_bootstrapped = false;
  announce_port = announce_port;
  pending_commands = [];
  pending_events = [];
})

-- The port is a `u16`, so `as u32` keeps it.
abbrev pub query_opts : ℕ → Topic → QueryOpts
query_opts port topic = record { topic = topic; port = some port; local_addr = none }

-- `Discovery::lookup` and `Discovery::announce`: the command waits in the queue.
module _ {D : Type 0} where
  unfoldable pub push_lookup : Topic → DhtDiscovery D → DhtDiscovery D
  push_lookup topic s = record s {
    pending_commands = s.pending_commands ++ lookup (query_opts s.announce_port topic) ∷ [];
  }

  unfoldable pub push_announce : Topic → DhtDiscovery D → DhtDiscovery D
  push_announce topic s = record s {
    pending_commands = s.pending_commands ++ announce (query_opts s.announce_port topic) ∷ [];
  }

  -- The loop over `lookup.remotes()`.
  unfoldable pub push_peers : Topic → List SocketAddr → DhtDiscovery D → DhtDiscovery D
  push_peers topic [] s = s
  push_peers topic (addr ∷ peers) s =
      let info = peer_info addr (some topic) dht in
      push_peers topic peers (record s { pending_events = s.pending_events ++ info ∷ [] })

  -- The `match` on an event of the table.
  unfoldable pub on_event : HyperDhtEvent → DhtDiscovery D → DhtDiscovery D
  unfolding push_peers
  on_event bootstrapped s = record s { is_bootstrapped = true }
  on_event announce_result s = s
  on_event (lookup_result l) s = push_peers l.topic l.remotes s
  on_event un_announce_result s = s
  on_event other s = s

-- What one round of the loop of `poll_next` comes to.
pub data Round (D : Type 0) : Type 0 where
  yields : Next PeerInfo → DhtDiscovery D → Round D
  breaks : Round D
  repeats : DhtDiscovery D → Round D

module _ {D : Type 0} where
  -- What follows a poll of the table, which left it in `state`.
  unfoldable pub on_polled : Poll (Option HyperDhtEvent) → D → DhtDiscovery D → Round D
  unfolding on_event
  on_polled pending state s = yields pending (record s { state = state })
  on_polled (ready none) state s = breaks
  on_polled (ready (some event)) state s = repeats (on_event event (record s { state = state }))

-- How the loop goes on after a round, `again` being its next rounds.
unfoldable pub proceed :
    {D : Type 0}
    → (DhtDiscovery D → Outcome (Next PeerInfo × DhtDiscovery D))
    → Round D
    → Outcome (Next PeerInfo × DhtDiscovery D)
proceed again (yields result s) = returns (result, s)
proceed again breaks = panics
proceed again (repeats s) = again s

module _ {D : Type 0} (hyper : HyperDht D) where
  -- The loop of `execute_pending_commands` over the queue.
  unfoldable pub execute : List Command → D → D
  execute [] d = d
  execute (announce opts ∷ commands) d = execute commands (hyper.announce opts d)
  execute (lookup opts ∷ commands) d = execute commands (hyper.lookup opts d)

  unfoldable pub execute_pending_commands : DhtDiscovery D → DhtDiscovery D
  unfolding execute
  execute_pending_commands s = record s {
    state = execute s.pending_commands s.state;
    pending_commands = [];
  }

  -- `ready!(self.state.poll_next(cx))`, the `unwrap` and the `match`.
  unfoldable pub poll_state : DhtDiscovery D → Round D
  unfolding on_polled
  poll_state s = let (polled, state) = hyper.poll_next s.state in on_polled polled state s

  -- `if self.bootstrapped { self.execute_pending_commands() }`
  unfoldable pub execute_if_bootstrapped : DhtDiscovery D → DhtDiscovery D
  execute_if_bootstrapped s = if s.is_bootstrapped then execute_pending_commands s else s

  -- A round of the loop in which `pending_events` is the given list.
  unfoldable pub round_with : List PeerInfo → DhtDiscovery D → Round D
  unfolding execute_if_bootstrapped execute_pending_commands poll_state
  round_with [] s = poll_state (execute_if_bootstrapped s)
  round_with (event ∷ rest) s =
      yields (ready (some (ok event))) (record s { pending_events = rest })

  -- One round of the loop.
  unfoldable pub round : DhtDiscovery D → Round D
  unfolding round_with
  round s = round_with s.pending_events s

  -- `poll_next`, cut off after `fuel` rounds.
  unfoldable pub poll_next : ℕ → DhtDiscovery D → Outcome (Next PeerInfo × DhtDiscovery D)
  unfolding round proceed
  poll_next zero s = out_of_fuel
  poll_next (suc fuel) s = proceed (poll_next fuel) (round s)

  abbrev pub dht_discovery : ℕ → Discovery (DhtDiscovery D)
  dht_discovery fuel = record {
    lookup = λ topic s. returns (push_lookup topic s);
    announce = λ topic s. returns (push_announce topic s);
    poll_next = poll_next fuel;
  }
