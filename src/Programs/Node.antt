-- ===== src/Programs/Node.antt =====
-- hyperswarm-bootstrap/src/main.rs: a bootstrap node with the addresses of others.
-- The command line is an argument, and the addresses that are logged are left out.
pub mod Starts
use hyperswarm_rs.Prelude.{
  ◌≡◌, ◌↔◌, ◌⊎◌, inl, inr, refl, ap, ap₂, ◌∙◌, Bool, true, false, some, List, [], ◌∷◌, ◌++◌, map,
  String, IoError, IoResult, ok, err, arith, if◌then◌else◌,
}
use hyperswarm_rs.Prelude.Io
use hyperswarm_rs.Prelude.Io.{>>=-eq-ok}
use hyperswarm_rs.Net.{SocketAddr, socket_v4, socket_v6}
use hyperswarm_rs.Config.{DhtSettings}
use hyperswarm_rs.Bootstrap.{DhtNode}
use hyperswarm_rs.Bootstrap

-- What `set_bootstrap_nodes` is given: texts, or addresses.
pub data Target : Type 0 where
  text : String → Target
  at : SocketAddr → Target

-- SocketAddr::is_ipv4
abbrev pub is_ipv4 : SocketAddr → Bool
is_ipv4 (socket_v4 ip port) = true
is_ipv4 (socket_v6 ip port flowinfo scope_id) = false

-- The inner loop, which pushes the addresses of a text.
unfoldable pub push_ipv4 : List SocketAddr → List SocketAddr → List SocketAddr
push_ipv4 addrs [] = addrs
push_ipv4 addrs (addr ∷ found) =
    if is_ipv4 addr then push_ipv4 (addrs ++ addr ∷ []) found else push_ipv4 addrs found

module _ (resolve : String → IoResult (List SocketAddr)) where
  -- The outer loop, which ends at the first text that does not resolve.
  unfoldable pub push_all : List SocketAddr → List String → IoResult (List SocketAddr)
  push_all addrs [] = ok addrs
  push_all addrs (name ∷ names) =
      Io.◌>>=◌ (resolve name) λ found. push_all (push_ipv4 addrs found) names

module _ {C B D : Type 0} (dht : DhtSettings C Target) (node : DhtNode C B D) where
  unfoldable pub base_config : List String → C
  base_config names = dht.set_ephemeral (dht.set_bootstrap_nodes dht.default (map text names)) false

  -- The configuration, by the texts of the option `bootstrap`.
  unfoldable pub config_with : List String → IoResult C
  unfolding base_config
  config_with [] = ok (base_config [])
  config_with (name ∷ names) =
      Io.◌>>=◌ (push_all node.resolve [] (name ∷ names))
        λ addrs. ok (dht.set_bootstrap_nodes (base_config (name ∷ names)) (map at addrs))

  -- async_main, up to the task that runs on.
  unfoldable pub async_main : SocketAddr → List String → IoResult (SocketAddr × D)
  async_main address names =
      Io.◌>>=◌ (config_with names)
        λ config. Bootstrap.run dht node (Bootstrap.new config (some address))
