-- ===== src/Discovery/Combined.antt =====
-- src/discovery/combined.rs: the two discoveries as one.
pub mod Weave
use hyperswarm_rs.Prelude.{
  ◌≡◌, refl, Bool, true, false, Option, none, some, IoResult, ok, err, Poll, pending, ready, Next,
  Outcome, returns, if◌then◌else◌,
}
use hyperswarm_rs.Prelude.Io
use hyperswarm_rs.Prelude.Outcomes
use hyperswarm_rs.Discovery.{Topic, PeerInfo, Discovery}

-- The parts are the states of a `DhtDiscovery` and of an `MdnsDiscovery`.
pub record CombinedDiscovery (H M : Type 0) : Type 0 where
  pub dht : H
  pub mdns : M

-- Poll::is_ready
abbrev pub is_ready {ℓ} : {A : Type ℓ} → Poll A → Bool
is_ready pending = false
is_ready (ready a) = true

-- `bind`, given how the parts are bound: mDNS first.
unfoldable pub bind : {H M : Type 0} → IoResult M → IoResult H → IoResult (CombinedDiscovery H M)
bind bind_mdns bind_dht =
    Io.◌>>=◌ bind_mdns λ mdns. Io.◌>>=◌ bind_dht λ dht. ok (record { mdns = mdns; dht = dht })

module _ {H M : Type 0} (dht : Discovery H) (mdns : Discovery M) where
  unfoldable pub lookup : Topic → CombinedDiscovery H M → Outcome (CombinedDiscovery H M)
  lookup topic s = Outcomes.◌>>=◌ (mdns.lookup topic s.mdns) λ mdns'.
      Outcomes.◌>>=◌ (dht.lookup topic s.dht) λ dht'. returns (record { mdns = mdns'; dht = dht' })

  unfoldable pub announce : Topic → CombinedDiscovery H M → Outcome (CombinedDiscovery H M)
  announce topic s = Outcomes.◌>>=◌ (mdns.announce topic s.mdns) λ mdns'.
      Outcomes.◌>>=◌ (dht.announce topic s.dht)
        λ dht'. returns (record { mdns = mdns'; dht = dht' })

  -- The poll of the second part, and the final `Poll::Pending`.
  unfoldable pub poll_mdns : CombinedDiscovery H M → Outcome (Next PeerInfo × CombinedDiscovery H M)
  poll_mdns s = Outcomes.◌>>=◌ (mdns.poll_next s.mdns) λ (next, mdns').
      let s' = record s { mdns = mdns' } in
      returns (if is_ready next then (next, s') else (pending, s'))

  unfoldable pub poll_next : CombinedDiscovery H M → Outcome (Next PeerInfo × CombinedDiscovery H M)
  unfolding poll_mdns
  poll_next s = Outcomes.◌>>=◌ (dht.poll_next s.dht) λ (next, dht').
      let s' = record s { dht = dht' } in if is_ready next then returns (next, s') else poll_mdns s'

  abbrev pub combined_discovery : Discovery (CombinedDiscovery H M)
  combined_discovery = record { lookup = lookup; announce = announce; poll_next = poll_next }
