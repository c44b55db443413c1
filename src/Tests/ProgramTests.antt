-- ===== src/Tests/ProgramTests.antt =====
-- Runs of the models of the programs in examples/ and hyperswarm-bootstrap/.
use hyperswarm_rs.Prelude.{
  ℕ, zero, suc, false, ◌≤◌, ◌≡◌, ◌⊎◌, refl, Bool, true, Option, none, some, List, [], ◌∷◌, String,
  IoError, IoResult, ok, err, returns, panics, arith, length, ◌==◌, Poll, if◌then◌else◌,
}
use hyperswarm_rs.Net.{SocketAddr}
use hyperswarm_rs.Channel.{list_channel, list_channel-IsFifo}
use hyperswarm_rs.Config.{DhtSettings}
use hyperswarm_rs.Bootstrap.{DhtNode}
use hyperswarm_rs.Bootstrap
use hyperswarm_rs.Util.{Blake2b}
use hyperswarm_rs.Discovery.{Topic}
use hyperswarm_rs.Discovery.Recording.{Recorded, recording}
use hyperswarm_rs.Discovery.Total.{dht-IsTotal}
use hyperswarm_rs.Discovery.Dht.{HyperDhtEvent, DhtDiscovery, dht_discovery}
use hyperswarm_rs.Transport.{Connection}
use hyperswarm_rs.Swarm.{ConfigureCommand, Hyperswarm, poll_commands}
use hyperswarm_rs.Hyperchat.Broadcast.{IncomingMessage}
use hyperswarm_rs.Hyperchat.Main.{known_as, says, print, join}
use hyperswarm_rs.Hyperchat.Main.Names.{print-names}
use hyperswarm_rs.Hyperchat.Main.Joins.{IsHash, Joined, join-Joined}
use hyperswarm_rs.Programs.Node.{Target, async_main}
use hyperswarm_rs.Programs.Node.Starts.{
  Resolves, Unresolved, configured, ipv4_of, async_main-starts,
}
use hyperswarm_rs.Tests.Doubles.{
  peer, topic_of, scripted_dht, scripted_dht-IsDraining, scripted_transport,
}

abbrev pub letter : List ℕ → Option String
letter [] = none
letter (b ∷ []) = if b == 104 then some "h" else none
letter (b ∷ c ∷ bytes) = none

pub letter_decodes : (bytes : List ℕ) (text : String) → letter bytes ≡ some text → 104 ∷ [] ≡ bytes
letter_decodes [] text e = cc
letter_decodes (b ∷ []) text e = ground arith
letter_decodes (b ∷ c ∷ bytes) text e = cc

abbrev from_two : List IncomingMessage
from_two =
    record { from = "tcp:2"; content = 104 ∷ [] }
    ∷ record { from = "tcp:1"; content = 255 ∷ [] }
    ∷ []

print-names_example :
    print letter none (record { from = "tcp:1"; content = 104 ∷ [] } ∷ from_two)
    ≡ known_as "tcp:1" "h" ∷ says "tcp:2" "h" "h" ∷ says "tcp:1" "h" "<invalid utf8>" ∷ []
print-names_example = print-names letter (record { from = "tcp:1"; content = 104 ∷ [] }) from_two

abbrev no_longer : List ℕ → ℕ → Bool
no_longer [] n = true
no_longer (b ∷ bytes) zero = false
no_longer (b ∷ bytes) (suc n) = no_longer bytes n

no_longer_lem : (bytes : List ℕ) (n : ℕ) → length bytes ≤ n → no_longer bytes n ≡ true
no_longer_lem [] n h = refl
no_longer_lem (b ∷ bytes) zero h = absurd (omega arith)
no_longer_lem (b ∷ bytes) (suc n) h = no_longer_lem bytes n (omega arith)

-- The digest of a text is thirty-two bytes of its length.
abbrev counting : Blake2b (List ℕ)
counting = record {
  with_key = λ n key. if no_longer key 64 then returns key else panics;
  update = λ bytes hasher. hasher;
  finalize = λ hasher. topic_of (length hasher);
}

counting_hashes :
    (bytes key : List ℕ)
    → length key ≤ 64
    → (h : List ℕ) × (counting.with_key 32 key ≡ returns h)
      × (counting.finalize (counting.update bytes h) ≡ topic_of (length key))
counting_hashes bytes key short = (key, rw (no_longer_lem key 64 short) refl, refl)

abbrev counting-IsHash : IsHash counting
counting-IsHash = record {
  digest = λ bytes key. topic_of (length key);
  hashes = counting_hashes;
  length_digest = λ bytes key. refl;
}

abbrev pub Swarm : Type 0
Swarm =
    Hyperswarm (Recorded (DhtDiscovery (List HyperDhtEvent)))
      (List SocketAddr × List (Poll (Option (IoResult (Connection ℕ))))) (List ConfigureCommand)

abbrev pub idle : Swarm
idle = record {
  topics = [];
  discovery = record {
    inner = record {
      state = [];
      is_bootstrapped = true;
      announce_port = 1;
      pending_commands = [];
      pending_events = [];
    };
    log = [];
    results = [];
  };
  transport = ([], []);
  commands = [];
}

-- The first topic is given twice.
abbrev chat_topics : List (List ℕ)
chat_topics = (1 ∷ []) ∷ (1 ∷ 2 ∷ []) ∷ (1 ∷ []) ∷ []

join-Joined_example :
    (joined polled : Swarm) × (join
        (recording (dht_discovery scripted_dht 9))
        scripted_transport
        list_channel
        counting
        chat_topics
        idle
      ≡ returns joined)
    × (poll_commands
          (recording (dht_discovery scripted_dht 9))
          scripted_transport
          list_channel
          4
          joined
        ≡ returns polled)
    × ((other : Topic)
        → Joined
            (dht_discovery scripted_dht 9)
            scripted_transport
            list_channel
            list_channel-IsFifo
            counting-IsHash
            chat_topics
            idle
            polled
            other)
join-Joined_example =
    join-Joined (dht_discovery scripted_dht 9) scripted_transport list_channel list_channel-IsFifo
      counting-IsHash (dht-IsTotal scripted_dht-IsDraining 9) chat_topics 4 idle refl refl
      (omega arith, (omega arith, (omega arith, tt))) (omega arith)

abbrev target_settings : DhtSettings (List Target × Bool) Target
target_settings = record {
  default = ([], true);
  set_bootstrap_nodes = λ (known, ephemeral) targets. (targets, ephemeral);
  empty_bootstrap_nodes = λ (known, ephemeral). ([], ephemeral);
  set_ephemeral = λ (known, old) ephemeral. (known, ephemeral);
}

abbrev target_node :
    DhtNode (List Target × Bool) (SocketAddr × List Target × Bool) (SocketAddr × List Target × Bool)
target_node = record {
  resolve = λ name. ok (peer 5 ∷ peer 6 ∷ []);
  bind = λ config addr. ok (addr, config.0, config.1);
  with_config = λ bound. ok bound;
  local_addr = λ bs. ok bs.0;
  next = λ bs. bs;
}

async_main-starts_example :
    ((founds : List (List SocketAddr)) × Resolves target_node.resolve ("a" ∷ "b" ∷ []) founds
      × (async_main target_settings target_node (peer 1) ("a" ∷ "b" ∷ [])
          ≡ Bootstrap.run target_settings target_node (
              Bootstrap.new
                (configured target_settings target_node ("a" ∷ "b" ∷ []) (ipv4_of founds))
                (some (peer 1)))))
    ⊎ ((e : IoError) × Unresolved target_node.resolve ("a" ∷ "b" ∷ []) e
        × (async_main target_settings target_node (peer 1) ("a" ∷ "b" ∷ []) ≡ err e))
async_main-starts_example = async_main-starts target_settings target_node (peer 1) ("a" ∷ "b" ∷ [])
