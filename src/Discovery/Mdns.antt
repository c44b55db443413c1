-- ===== src/Discovery/Mdns.antt =====
-- src/discovery/mdns.rs: discovery over multicast DNS.
-- `Locator`, `Announcer`, the sockets and the channel are other crates': the record `Mdns` is what the
-- source calls of them.
pub mod Locates
use hyperswarm_rs.Prelude.{
  ℕ, ◌≡◌, refl, Option, none, some, List, [], ◌∷◌, String, IoError, new, other, IoResult, ok, err,
  Poll, pending, ready, Next, Outcome, returns, panics, if◌then◌else◌, ◌==◌, length,
}
use hyperswarm_rs.Prelude.Io
use hyperswarm_rs.Prelude.Outcomes
use hyperswarm_rs.Net.{SocketAddr}
use hyperswarm_rs.Channel.{Channel}
use hyperswarm_rs.Discovery.{Topic, topic_from, PeerInfo, peer_info, mdns, Discovery}
use hyperswarm_rs.Discovery.MdnsConfig.{MdnsConfig, IdBytes, Duration}

pub data Command : Type 0 where
  lookup announce : Topic → Command

-- The other crates' parts: a locator `L`, an announcer `A`, futures `F`, a queue of commands `Q` and
-- sockets `S`. Of a poll of the announcer the source keeps nothing but its new state.
pub record Mdns (L A F Q S : Type 0) : Type 0 where
  pub channel : Channel Q Command
  pub poll_locator : L → Poll (Option (List ℕ × SocketAddr)) × L
  pub poll_announcer : A → A
  pub poll_future : F → Poll (IoResult (Unit {0})) × F
  pub listen_locator : S → Duration → IdBytes → L
  pub listen_announcer : S → ℕ → List ℕ → A
  pub hex_encode : IdBytes → List ℕ

-- `pending_commands` is the channel of which the source keeps both ends.
pub record MdnsDiscovery (L A F Q : Type 0) : Type 0 where
  pub announcer : A
  pub locator : L
  pub pending_commands : Q
  pub pending_future : Option F

-- The two branches of `ready!(this.poll_pending_future(cx))` that return, and the rest of the poll.
abbrev pub on_future :
    {S : Type 0} → Poll (IoResult (Unit {0})) → S → (S → Next PeerInfo × S) → Next PeerInfo × S
on_future pending s k = (pending, s)
on_future (ready (err e)) s k = (ready (some (err e)), s)
on_future (ready (ok u)) s k = k s

-- What the answer of the locator becomes.
unfoldable pub located : Poll (Option (List ℕ × SocketAddr)) → Next PeerInfo
located pending = pending
located (ready none) = pending
located (ready (some (bytes, peer_addr))) = elim (topic_from bytes) [
  | some topic ↦ ready (some (ok (peer_info peer_addr (some topic) mdns)))
  | none ↦ ready (some (err (new other "Received invalid topic")))
]

module _ {L A F Q S : Type 0} (m : Mdns L A F Q S) where
  -- `random` is what `IdBytes::random()` gives, and the two results are those of the two calls of
  -- `socket::create()`, in order.
  unfoldable pub bind :
      IdBytes → IoResult S → IoResult S → MdnsConfig → ℕ → IoResult (MdnsDiscovery L A F Q)
  bind random created created' config announce_port =
      let self_id : IdBytes = elim config.id [ none ↦ random | some id ↦ id ] in
      Io.◌>>=◌ created λ socket. Io.◌>>=◌ created' λ socket'. ok (record {
        locator = m.listen_locator socket config.lookup_interval self_id;
        announcer = m.listen_announcer socket' announce_port (m.hex_encode self_id);
        pending_commands = m.channel.unbounded;
        pending_future = none;
      })

  send : Command → MdnsDiscovery L A F Q → Outcome (MdnsDiscovery L A F Q)
  send command s =
      Outcomes.◌>>=◌ (Outcomes.unwrap (m.channel.try_send command s.pending_commands))
        λ q. returns (record s { pending_commands = q })

  unfoldable pub push_lookup : Topic → MdnsDiscovery L A F Q → Outcome (MdnsDiscovery L A F Q)
  unfolding send
  push_lookup topic s = send (lookup topic) s

  unfoldable pub push_announce : Topic → MdnsDiscovery L A F Q → Outcome (MdnsDiscovery L A F Q)
  unfolding send
  push_announce topic s = send (announce topic) s

  -- `poll_pending_future`, given the future that is pending.
  poll_future_of :
      Option F → MdnsDiscovery L A F Q → Poll (IoResult (Unit {0})) × MdnsDiscovery L A F Q
  poll_future_of none s = (ready (ok tt), s)
  poll_future_of (some fut) s =
      let (polled, fut') = m.poll_future fut in
      elim polled [
        | pending ↦ (pending, record s { pending_future = some fut' })
        | ready res ↦ (ready res, record s { pending_future = none })
      ]

  unfoldable pub poll_pending_future :
      MdnsDiscovery L A F Q → Poll (IoResult (Unit {0})) × MdnsDiscovery L A F Q
  unfolding poll_future_of
  poll_pending_future s = poll_future_of s.pending_future s

  -- A command is taken from the channel, and nothing is done with it.
  unfoldable pub take_command : MdnsDiscovery L A F Q → MdnsDiscovery L A F Q
  take_command s = record s { pending_commands = (m.channel.poll_next s.pending_commands).1 }

  -- The announcer is polled, then the locator, whose answer is the result.
  unfoldable pub poll_parts : MdnsDiscovery L A F Q → Next PeerInfo × MdnsDiscovery L A F Q
  poll_parts s =
      let (answer, locator) = m.poll_locator s.locator in
      (located answer, record s { announcer = m.poll_announcer s.announcer; locator = locator })

  unfoldable pub poll_next : MdnsDiscovery L A F Q → Next PeerInfo × MdnsDiscovery L A F Q
  unfolding poll_pending_future take_command poll_parts
  poll_next s =
      let (polled, s₁) = poll_pending_future s in
      on_future polled s₁ λ s₂.
        let (polled', s₃) = poll_pending_future (take_command s₂) in on_future polled' s₃ poll_parts

  abbrev pub mdns_discovery : Discovery (MdnsDiscovery L A F Q)
  mdns_discovery = record {
    lookup = push_lookup;
    announce = push_announce;
    poll_next = λ s. returns (poll_next s);
  }
