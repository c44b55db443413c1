-- ===== src/Discovery/Total.antt =====
-- Discoveries, implementations of the trait of src/discovery/mod.rs, whose operations return.
use hyperswarm_rs.Prelude.{
  ℕ, ◌+◌, ◌*◌, ◌≤◌, ◌<◌, ◌≡◌, refl, ap, ◌∙◌, List, [], ◌∷◌, ◌++◌, pending, ready, Next, Outcome,
  returns, arith, length, length-append, if◌then◌else◌,
}
use hyperswarm_rs.Prelude.Outcomes.{returns->>=, chain_returns}
use hyperswarm_rs.Channel.{IsFifo}
use hyperswarm_rs.Discovery.{Topic, PeerInfo, Discovery}
use hyperswarm_rs.Discovery.Recording.{recording}
use hyperswarm_rs.Discovery.Dht.{
  HyperDht, DhtDiscovery, query_opts, push_lookup, push_announce, dht_discovery,
}
use hyperswarm_rs.Discovery.Dht
use hyperswarm_rs.Discovery.Dht.Termination.{IsDraining, work, poll_next-returns}
use hyperswarm_rs.Discovery.Mdns.{Mdns, MdnsDiscovery, mdns_discovery}
use hyperswarm_rs.Discovery.Mdns
use hyperswarm_rs.Discovery.Mdns.Locates.{push_lookup_sends, push_announce_sends}
use hyperswarm_rs.Discovery.Combined.{
  CombinedDiscovery, is_ready, lookup, announce, poll_mdns, poll_next, combined_discovery,
}

-- An operation returns, and leaves at most so much work.
abbrev pub Within : {D : Type 0} → (D → ℕ) → ℕ → Outcome D → Type 0
Within {D} work bound result = (s' : D) × (result ≡ returns s') × (work s' ≤ bound)

-- Lookups and announcements return and add at most `cost` to the work, and a poll returns below `limit`.
pub record IsTotal {D : Type 0} (d : Discovery D) : Type 0 where
  pub load : D → ℕ
  pub cost : ℕ
  pub limit : ℕ
  pub looks_up : (topic : Topic) (s : D) → Within load (load s + cost) (d.lookup topic s)
  pub announces : (topic : Topic) (s : D) → Within load (load s + cost) (d.announce topic s)
  pub polls : (s : D) → load s < limit → (r : Next PeerInfo × D) × (d.poll_next s ≡ returns r)

times-snoc :
    {A : Type 0} (n : ℕ) (xs : List A) (x : A) → n * length (xs ++ x ∷ []) ≡ n * length xs + n
times-snoc n xs x = ap (◌*◌ n) (length-append xs (x ∷ [])) ∙ omega arith

module _ {D : Type 0} {hyper : HyperDht D} (draining : IsDraining hyper) (rounds : ℕ) where
  pub dht_looks_up :
      (topic : Topic) (s : DhtDiscovery D)
      → Within
          (work draining)
          (work draining s + draining.burst)
          ((dht_discovery hyper rounds).lookup topic s)
  unfolding push_lookup
  dht_looks_up topic s = (
    push_lookup topic s,
    refl,
    omega (
      arith,
      times-snoc draining.burst s.pending_commands (Dht.lookup (query_opts s.announce_port topic)),
    ),
  )

  pub dht_announces :
      (topic : Topic) (s : DhtDiscovery D)
      → Within
          (work draining)
          (work draining s + draining.burst)
          ((dht_discovery hyper rounds).announce topic s)
  unfolding push_announce
  dht_announces topic s = (
    push_announce topic s,
    refl,
    omega (
      arith,
      times-snoc draining.burst s.pending_commands
          (Dht.announce (query_opts s.announce_port topic)),
    ),
  )

  abbrev pub dht-IsTotal : IsTotal (dht_discovery hyper rounds)
  dht-IsTotal = record {
    load = work draining;
    cost = draining.burst;
    limit = rounds;
    looks_up = dht_looks_up;
    announces = dht_announces;
    polls = poll_next-returns draining rounds;
  }

-- A record adds no work.
abbrev pub recording-IsTotal : {D : Type 0} {d : Discovery D} → IsTotal d → IsTotal (recording d)
recording-IsTotal total = record {
  load = λ r. total.load r.inner;
  cost = total.cost;
  limit = total.limit;
  looks_up = λ topic r.
      let (s', e, less) = total.looks_up topic r.inner in (_, chain_returns _ _ e refl, less);
  announces = λ topic r.
      let (s', e, less) = total.announces topic r.inner in (_, chain_returns _ _ e refl, less);
  polls = λ r h. let (polled, e) = total.polls r.inner h in (_, chain_returns _ _ e refl);
}

-- A discovery of which every operation returns, in any state.
pub record Always {M : Type 0} (d : Discovery M) : Type 0 where
  pub looks_up : (topic : Topic) (s : M) → (s' : M) × (d.lookup topic s ≡ returns s')
  pub announces : (topic : Topic) (s : M) → (s' : M) × (d.announce topic s ≡ returns s')
  pub polls : (s : M) → (r : Next PeerInfo × M) × (d.poll_next s ≡ returns r)

module _ {L A F Q S : Type 0} (m : Mdns L A F Q S) (fifo : IsFifo m.channel) where
  abbrev pub mdns-Always : Always (mdns_discovery m)
  mdns-Always = record {
    looks_up = λ topic s. (_, push_lookup_sends m fifo topic s);
    announces = λ topic s. (_, push_announce_sends m fifo topic s);
    polls = λ s. (Mdns.poll_next m s, refl);
  }

module _ {H M : Type 0} {dht : Discovery H} {mdns : Discovery M} (total : IsTotal dht)
    (always : Always mdns) where
  pub combined_looks_up :
      (topic : Topic) (s : CombinedDiscovery H M)
      → Within
          (λ (u : CombinedDiscovery H M). total.load u.dht)
          (total.load s.dht + total.cost)
          (lookup dht mdns topic s)
  unfolding lookup
  combined_looks_up topic s =
      let (mdns', e) = always.looks_up topic s.mdns in
      let (dht', f, less) = total.looks_up topic s.dht in
      (record { dht = dht'; mdns = mdns' }, ground arith, less)

  pub combined_announces :
      (topic : Topic) (s : CombinedDiscovery H M)
      → Within
          (λ (u : CombinedDiscovery H M). total.load u.dht)
          (total.load s.dht + total.cost)
          (announce dht mdns topic s)
  unfolding announce
  combined_announces topic s =
      let (mdns', e) = always.announces topic s.mdns in
      let (dht', f, less) = total.announces topic s.dht in
      (record { dht = dht'; mdns = mdns' }, ground arith, less)

  poll_mdns_returns :
      (s : CombinedDiscovery H M)
      → (r : Next PeerInfo × CombinedDiscovery H M) × (poll_mdns dht mdns s ≡ returns r)
  unfolding poll_mdns
  poll_mdns_returns s =
      let (r, e) = always.polls s.mdns in returns->>= (mdns.poll_next s.mdns) _ e (_, refl)

  after :
      (next : Next PeerInfo) (s : CombinedDiscovery H M)
      → (r : Next PeerInfo × CombinedDiscovery H M) × ((if is_ready next
            then returns (next, s)
            else poll_mdns dht mdns s)
          ≡ returns r)
  after pending s = poll_mdns_returns s
  after (ready item) s = ((ready item, s), refl)

  pub combined_polls :
      (s : CombinedDiscovery H M)
      → total.load s.dht < total.limit
      → (r : Next PeerInfo × CombinedDiscovery H M) × (poll_next dht mdns s ≡ returns r)
  unfolding poll_next
  combined_polls s h =
      let (r, e) = total.polls s.dht h in
      returns->>= (dht.poll_next s.dht) _ e (after r.0 (record s { dht = r.1 }))

  abbrev pub combined-IsTotal : IsTotal (combined_discovery dht mdns)
  combined-IsTotal = record {
    load = λ s. total.load s.dht;
    cost = total.cost;
    limit = total.limit;
    looks_up = combined_looks_up;
    announces = combined_announces;
    polls = combined_polls;
  }
