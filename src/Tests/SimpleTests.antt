-- ===== src/Tests/SimpleTests.antt =====
-- Runs of the model of examples/simple.rs.
use hyperswarm_rs.Prelude.{
  ℕ, ◌<◌, ◌≤◌, ◌≡◌, refl, Option, some, List, [], ◌∷◌, ◌++◌, IoResult, ok, Outcome, returns, arith,
  length, ◌==◌, Bool-cases, inl, inr, if◌then◌else◌,
}
use hyperswarm_rs.Channel.{list_channel, list_channel-IsFifo}
use hyperswarm_rs.Discovery.Recording.{recording}
use hyperswarm_rs.Discovery.Dht.{HyperDhtEvent, DhtDiscovery, dht_discovery}
use hyperswarm_rs.Discovery.Dht
use hyperswarm_rs.Swarm.{handle_configure, configure, poll_next}
use hyperswarm_rs.Swarm.Topics.{find, remove, insert, Topic-discrete}
use hyperswarm_rs.Programs.Simple.{
  TextStream, on_connection, zero_topic, take_connections, run_node,
}
use hyperswarm_rs.Programs.Simple.Nodes.{joining, Asks, run_node-Asks}
use hyperswarm_rs.Programs.Simple.Talks.{IsOpen, Prints, on_connection-Prints}
use hyperswarm_rs.Tests.Doubles.{scripted_dht, scripted_transport}
use hyperswarm_rs.Tests.ProgramTests.{letter, letter_decodes, Swarm, idle}

-- A stream that gives one byte in a read.
abbrev read_byte : ℕ → List ℕ → IoResult (List ℕ) × List ℕ
read_byte n [] = (ok [], [])
read_byte n (b ∷ bytes) = if n == 0 then (ok [], b ∷ bytes) else (ok (b ∷ []), bytes)

abbrev bytes_stream : TextStream (List ℕ)
bytes_stream = record { write_all = λ bytes s. (ok tt, s); read = read_byte }

read_byte-reads :
    (n : ℕ) (s : List ℕ)
    → (bytes : List ℕ) × (s' : List ℕ) × (read_byte n s ≡ (ok bytes, s'))
      × (s ≡ bytes ++ s')
      × (length bytes ≤ n)
read_byte-reads n [] = ([], [], refl, refl, omega arith)
read_byte-reads n (b ∷ bytes) = elim (Bool-cases (n == 0)) [
  | inl nothing ↦ ([], b ∷ bytes, rw nothing refl, refl, omega arith)
  | inr something ↦ (b ∷ [], bytes, rw something refl, refl, ground arith)
]

read_byte-ends : (n : ℕ) (s : List ℕ) {s' : List ℕ} → read_byte n s ≡ (ok [], s') → 0 < n → s ≡ []
read_byte-ends n [] e h = refl
read_byte-ends n (b ∷ bytes) e h = ground arith

abbrev bytes_stream-IsOpen : IsOpen bytes_stream
bytes_stream-IsOpen = record {
  contents = λ s. s;
  writes = λ bytes s. (s, refl, refl);
  reads = read_byte-reads;
  ends = read_byte-ends;
}

on_connection-Prints_example :
    Prints bytes_stream bytes_stream-IsOpen letter
      (λ text. 104 ∷ [])
      letter_decodes
      (104 ∷ 104 ∷ [])
      (on_connection bytes_stream letter 3 (110 ∷ []) (104 ∷ 104 ∷ []))
on_connection-Prints_example =
    on_connection-Prints bytes_stream bytes_stream-IsOpen letter (λ text. 104 ∷ []) letter_decodes
      (110 ∷ []) 3 (104 ∷ 104 ∷ []) (omega arith)

abbrev kept_of : Outcome (Option Swarm) → Swarm
kept_of (returns (some s)) = s
kept_of _ = idle

-- The task of a node polls its swarm twice before the topic is configured, and twice after.
abbrev early_node : Swarm
early_node = kept_of (
    take_connections (recording (dht_discovery scripted_dht 9)) scripted_transport list_channel 2 2
      idle)

abbrev node : Swarm
node =
    joining (dht_discovery scripted_dht 9) scripted_transport list_channel list_channel-IsFifo 2
      early_node

abbrev polled_node : Swarm
polled_node = kept_of (
    take_connections (recording (dht_discovery scripted_dht 9)) scripted_transport list_channel 2 2
      node)

run_node-Asks_example :
    (run_node
        (recording (dht_discovery scripted_dht 9))
        scripted_transport
        list_channel
        2
        2
        (returns (ok idle))
      ≡ returns (ok node))
    × Asks
        (dht_discovery scripted_dht 9)
        scripted_transport
        list_channel
        list_channel-IsFifo
        2
        zero_topic
        idle
        node
        polled_node
unfolding run_node take_connections handle_configure poll_next configure find remove insert
    Topic-discrete Dht.poll_next Dht.push_lookup Dht.push_announce
run_node-Asks_example =
    run_node-Asks (dht_discovery scripted_dht 9) scripted_transport list_channel list_channel-IsFifo
      2 zero_topic 2 1 idle {u = early_node} {s' = polled_node} refl refl refl refl
