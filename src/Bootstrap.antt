-- ===== src/Bootstrap.antt =====
-- src/bootstrap.rs: a node of the table that others begin at.
-- `HyperDht` and its configuration are another crate's: `DhtSettings` and the record `DhtNode` are what
-- the source calls of them.
pub mod Runs
use hyperswarm_rs.Prelude.{
  ℕ, zero, suc, String, Option, none, some, List, IoResult, ok, err, Outcome, returns, panics,
  out_of_fuel, false,
}
use hyperswarm_rs.Prelude.Io
use hyperswarm_rs.Prelude.Outcomes.{and_then}
use hyperswarm_rs.Net.{SocketAddr, socket_addr, v4}
use hyperswarm_rs.Util.{to_socket_addr}
use hyperswarm_rs.Config.{DhtSettings, unwrap_or}

abbrev pub default_dht_bind_addr : String
default_dht_bind_addr = "0.0.0.0:49737"

-- Configurations `C`, those bound to an address `B`, and tables `D`; `next` is the table after its next
-- event, and `resolve` the resolution of a text.
pub record DhtNode (C B D : Type 0) : Type 0 where
  pub resolve : String → IoResult (List SocketAddr)
  pub bind : C → SocketAddr → IoResult B
  pub with_config : B → IoResult D
  pub local_addr : D → IoResult SocketAddr
  pub next : D → D

pub record BootstrapNode (C : Type 0) : Type 0 where
  pub config : C
  pub addr : Option SocketAddr

abbrev pub new : {C : Type 0} → C → Option SocketAddr → BootstrapNode C
new config addr = record { config = config; addr = addr }

module _ {C A B D : Type 0} (dht : DhtSettings C A) (node : DhtNode C B D) where
  -- `with_addr`, given what the address resolves to.
  unfoldable pub with_addr : IoResult (List SocketAddr) → IoResult (BootstrapNode C)
  with_addr resolved = Io.◌>>=◌ (to_socket_addr resolved) λ addr.
      let config = dht.set_ephemeral (dht.empty_bootstrap_nodes dht.default) false in
      ok (new config (some addr))

  -- `default`, whose `unwrap` panics on an error.
  unfoldable pub default_node : Outcome (BootstrapNode C)
  default_node = elim (with_addr (node.resolve default_dht_bind_addr)) [
    | ok bs ↦ returns bs
    | err e ↦ panics
  ]

  -- `with_config`, given what an optional address resolves to.
  unfoldable pub with_config : C → Option (IoResult (List SocketAddr)) → IoResult (BootstrapNode C)
  with_config config addr =
      Io.◌>>=◌ (to_socket_addr (unwrap_or addr (node.resolve default_dht_bind_addr)))
        λ found. ok (new config (some found))

  -- `run`, with the table that the spawned task polls.
  unfoldable pub run : BootstrapNode C → IoResult (SocketAddr × D)
  run s =
      let addr = unwrap_or s.addr (socket_addr (v4 0) 49737) in
      Io.◌>>=◌ (node.bind s.config addr) λ config.
        Io.◌>>=◌ (node.with_config config)
          λ bs. Io.◌>>=◌ (node.local_addr bs) λ local. ok (local, bs)

  -- The spawned task, after `n` events.
  unfoldable pub task : ℕ → D → D
  task zero bs = bs
  task (suc n) bs = task n (node.next bs)

  -- `run_bootstrap_node`, given what an optional address resolves to.
  unfoldable pub run_bootstrap_node :
      Option (IoResult (List SocketAddr)) → Outcome (IoResult (SocketAddr × D))
  run_bootstrap_node none = elim default_node [
    | returns bs ↦ returns (run bs)
    | panics ↦ panics
    | out_of_fuel ↦ out_of_fuel
  ]
  run_bootstrap_node (some resolved) = and_then (with_addr resolved) λ bs. returns (run bs)
