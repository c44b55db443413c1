-- ===== src/Programs/Simple.antt =====
-- examples/simple.rs: nodes that join one topic, and print what they read from their connections.
-- The environment and the terminal are left out: the variables are arguments, and lines are given.
pub mod Talks
pub mod Nodes
use text.Mathlib.Text
use hyperswarm_rs.Prelude.{
  ℕ, zero, suc, if◌then◌else◌, Option, none, some, List, [], ◌∷◌, String, IoError, IoResult, ok,
  err, Outcome, returns, panics, out_of_fuel, first, pending, ready, Next,
}
use hyperswarm_rs.Prelude.Io
use hyperswarm_rs.Prelude.Outcomes
use hyperswarm_rs.Prelude.Outcomes.{and_then}
use hyperswarm_rs.Net.{SocketAddr}
use hyperswarm_rs.Channel.{Channel}
use hyperswarm_rs.Config.{both, DhtSettings}
use hyperswarm_rs.Bootstrap.{DhtNode}
use hyperswarm_rs.Bootstrap
use hyperswarm_rs.Discovery.{Topic, Discovery}
use hyperswarm_rs.Transport.{Connection, Transport}
use hyperswarm_rs.Swarm.{ConfigureCommand, Hyperswarm, handle_configure, poll_next}

-- What is used of a stream: writing all of some bytes, and reading at most so many.
pub record TextStream (S : Type 0) : Type 0 where
  pub write_all : List ℕ → S → IoResult (Unit {0}) × S
  pub read : ℕ → S → IoResult (List ℕ) × S

pub data Line : Type 0 where
  message : String → Line
  close : Line
  error : IoError → Line

abbrev pub prepend : {S : Type 0} → Line → List Line × S → Outcome (List Line × S)
prepend line (lines, s) = returns (line ∷ lines, s)

module _ {S : Type 0} (stream : TextStream S) (from_utf8 : List ℕ → Option String) where
  -- One round of the loop, by what was read; `again` goes on.
  unfoldable pub on_read :
      (S → Outcome (List Line × S)) → IoResult (List ℕ) × S → Outcome (List Line × S)
  on_read again (ok [], s) = returns (close ∷ [], s)
  on_read again (err e, s) = returns (error e ∷ [], s)
  on_read again (ok (b ∷ bytes), s) =
      Outcomes.◌>>=◌ (Outcomes.unwrap (from_utf8 (b ∷ bytes)))
        λ text. Outcomes.◌>>=◌ (again s) (prepend (message text))

  -- The loop, cut off after `fuel` rounds.
  unfoldable pub read_loop : ℕ → S → Outcome (List Line × S)
  unfolding on_read
  read_loop zero s = out_of_fuel
  read_loop (suc fuel) s = on_read (read_loop fuel) (stream.read 100 s)

  abbrev pub on_greeted : ℕ → IoResult (Unit {0}) × S → Outcome (List Line × S)
  on_greeted fuel (err e, s) = panics
  on_greeted fuel (ok u, s) = read_loop fuel s

  -- The task of `on_connection`, given the bytes of its greeting.
  unfoldable pub on_connection : ℕ → List ℕ → S → Outcome (List Line × S)
  on_connection fuel greeting s = on_greeted fuel (stream.write_all greeting s)

-- `bs_addr.to_socket_addrs().unwrap().next().unwrap()`, given what the text resolves to.
unfoldable pub bootstrap_addr : IoResult (List SocketAddr) → Outcome SocketAddr
bootstrap_addr (ok addrs) = Outcomes.unwrap (first addrs)
bootstrap_addr (err e) = panics

-- `[0u8; 32]`
abbrev pub zero_topic : Topic
zero_topic = eight (eight (eight (eight [])))
  where
    eight : List ℕ → List ℕ
    eight r = 0 ∷ 0 ∷ 0 ∷ 0 ∷ 0 ∷ 0 ∷ 0 ∷ 0 ∷ r

module _ {D S T Q : Type 0} (discovery : Discovery D) (transport : Transport S T)
    (channel : Channel Q ConfigureCommand) (fuel : ℕ) where
  -- What the task of `run_node` does with a result of polling its swarm: `again` goes on, at once after a
  -- connection, which a task of its own gets (`on_connection`), and when it is woken after `Pending`.
  -- The end of the stream ends the task and an error makes it panic: either drops the swarm.
  unfoldable pub on_next :
      (Hyperswarm D S Q → Outcome (Option (Hyperswarm D S Q)))
      → Next (Connection T) × Hyperswarm D S Q
      → Outcome (Option (Hyperswarm D S Q))
  on_next again (pending, s) = again s
  on_next again (ready (some (ok stream)), s) = again s
  on_next again (ready (some (err e)), s) = returns none
  on_next again (ready none, s) = returns none

  -- The task over so many polls of its swarm, of which the commands have `fuel` rounds, and the swarm
  -- if it is not dropped.
  unfoldable pub take_connections : ℕ → Hyperswarm D S Q → Outcome (Option (Hyperswarm D S Q))
  unfolding on_next
  take_connections zero s = returns (some s)
  take_connections (suc turns) s =
      Outcomes.◌>>=◌ (poll_next discovery transport channel fuel s)
        (on_next (take_connections turns))

  -- `run_node`, given what binding a swarm results in and how often the task that it spawns polls the
  -- swarm before the topic is configured. Where the swarm is dropped by then, so is the receiver of
  -- the commands: sending fails, and `configure` of the handle panics.
  unfoldable pub run_node :
      ℕ → Outcome (IoResult (Hyperswarm D S Q)) → Outcome (IoResult (Hyperswarm D S Q))
  unfolding take_connections
  run_node early bound = Outcomes.◌>>=◌ bound λ result. and_then result λ swarm.
      Outcomes.◌>>=◌ (take_connections early swarm) λ kept.
        Outcomes.◌>>=◌ (Outcomes.unwrap kept) λ s.
          Outcomes.◌>>=◌ (handle_configure discovery transport channel zero_topic both s)
            λ s'. returns (ok s')

abbrev pub default_bootstrap : String
default_bootstrap = "localhost:6060"

-- The text of the bootstrap address, by the variable `BOOTSTRAP`: without it a node is run.
module _ {C A B D : Type 0} (dht : DhtSettings C A) (node : DhtNode C B D)
    (to_string : SocketAddr → String) where
  unfoldable pub bootstrap_text : Option String → IoResult String
  bootstrap_text none =
      Io.◌>>=◌ (Bootstrap.with_addr dht node (node.resolve default_bootstrap))
        λ bs. Io.◌>>=◌ (Bootstrap.run dht node bs) λ (addr, table). ok (to_string addr)
  bootstrap_text (some addr) = ok (if Text.◌==◌ addr "default" then default_bootstrap else addr)
