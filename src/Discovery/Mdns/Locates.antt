-- ===== src/Discovery/Mdns/Locates.antt =====
-- src/discovery/mdns.rs: the results of a run beside the answers of the locator.
use hyperswarm_rs.Prelude.{
  ℕ, zero, suc, ◌≡◌, refl, ◌↔◌, Option, none, some, List, [], ◌∷◌, IoResult, ok, Poll, pending,
  ready, Next, returns, arith, length,
}
use hyperswarm_rs.Net.{SocketAddr}
use hyperswarm_rs.Channel.{IsFifo}
use hyperswarm_rs.Discovery.{Topic, PeerInfo, peer_info, mdns}
use hyperswarm_rs.Discovery.Calls.{Call, looks_up, announces, polls, count_polls, run}
use hyperswarm_rs.Discovery.MdnsConfig.{MdnsConfig, IdBytes}
use hyperswarm_rs.Discovery.Mdns.{
  Mdns, lookup, announce, MdnsDiscovery, located, bind, push_lookup, push_announce, poll_next,
  mdns_discovery,
}

module _ {L A F Q S : Type 0} (m : Mdns L A F Q S) where
  -- The results of polling the locator alone, `n` times.
  abbrev pub answers : ℕ → L → List (Next PeerInfo)
  answers zero l = []
  answers (suc n) l = let (answer, l') = m.poll_locator l in located answer ∷ answers n l'

  -- The state after a poll in which no future is pending.
  abbrev polled : MdnsDiscovery L A F Q → MdnsDiscovery L A F Q
  polled s = record {
    announcer = m.poll_announcer s.announcer;
    locator = (m.poll_locator s.locator).1;
    pending_commands = (m.channel.poll_next s.pending_commands).1;
    pending_future = none;
  }

  poll_next_idle :
      (s : MdnsDiscovery L A F Q)
      → s.pending_future ≡ none
      → poll_next m s ≡ (located (m.poll_locator s.locator).0, polled s)
  unfolding poll_next
  poll_next_idle s e = ground arith

  pub bind_idle :
      (random : IdBytes) (created created' : IoResult S) (config : MdnsConfig) (port : ℕ)
      {s : MdnsDiscovery L A F Q}
      → bind m random created created' config port ≡ ok s
      → s.pending_future ≡ none
  unfolding bind
  bind_idle random created created' config port b = ground arith

  module _ (fifo : IsFifo m.channel) where
    pub push_lookup_sends :
        (topic : Topic) (s : MdnsDiscovery L A F Q)
        → push_lookup m topic s
          ≡ returns
              (record s { pending_commands = (fifo.sends (lookup topic) s.pending_commands).0 })
    unfolding push_lookup
    push_lookup_sends topic s = rw (fifo.sends (lookup topic) s.pending_commands).1

    pub push_announce_sends :
        (topic : Topic) (s : MdnsDiscovery L A F Q)
        → push_announce m topic s
          ≡ returns
              (record s { pending_commands = (fifo.sends (announce topic) s.pending_commands).0 })
    unfolding push_announce
    push_announce_sends topic s = rw (fifo.sends (announce topic) s.pending_commands).1

    pub run-answers :
        (calls : List Call) (s : MdnsDiscovery L A F Q)
        → s.pending_future ≡ none
        → (s' : MdnsDiscovery L A F Q) × (run (mdns_discovery m) calls s
            ≡ returns (answers (count_polls calls) s.locator, s'))
    unfolding run
    run-answers [] s e = (s, refl)
    run-answers (looks_up topic ∷ calls) s e =
        let sent = fifo.sends (lookup topic) s.pending_commands in
        let (s', rest) = run-answers calls (record s { pending_commands = sent.0 }) e in
        (s', rw (push_lookup_sends topic s) rest)
    run-answers (announces topic ∷ calls) s e =
        let sent = fifo.sends (announce topic) s.pending_commands in
        let (s', rest) = run-answers calls (record s { pending_commands = sent.0 }) e in
        (s', rw (push_announce_sends topic s) rest)
    run-answers (polls ∷ calls) s e =
        let (s', rest) = run-answers calls (polled s) refl in (s', rw (poll_next_idle s e, rest))

    -- Over an open first-in first-out channel, whatever calls are made on a multicast DNS discovery
    -- that `bind` has just made, the run ends without a panic, and the results of its polls are
    -- those of polling the bound locator alone as often: what was looked up and announced has no
    -- effect on them.
    pub bind-answers :
        (random : IdBytes) (created created' : IoResult S) (config : MdnsConfig) (port : ℕ)
        (calls : List Call) {s : MdnsDiscovery L A F Q}
        → bind m random created created' config port ≡ ok s
        → (s' : MdnsDiscovery L A F Q) × (run (mdns_discovery m) calls s
            ≡ returns (answers (count_polls calls) s.locator, s'))
    bind-answers random created created' config port calls {s} b =
        run-answers calls s (bind_idle random created created' config port b)

-- A peer comes of an answer of the locator exactly when the answer has a topic of 32 bytes; the peer
-- has that topic, the address of the answer and the method of multicast DNS.
pub located_iff :
    (answer : Poll (Option (List ℕ × SocketAddr))) (info : PeerInfo)
    → (located answer ≡ ready (some (ok info))) ↔ (
        (bytes : List ℕ) × (addr : SocketAddr) × (answer ≡ ready (some (bytes, addr)))
        × (length bytes ≡ 32)
        × (info ≡ record { peer_addr = addr; topic = some bytes; discovery_method = mdns }))
unfolding located peer_info
located_iff pending info = (λ e. cc, λ (bytes, addr, e, _, _). cc)
located_iff (ready none) info = (λ e. cc, λ (bytes, addr, e, _, _). cc)
located_iff (ready (some (bytes, addr))) info =
    (λ e. (bytes, addr, refl, ground arith, ground arith), λ (bytes', addr', e, n, i). ground arith)
