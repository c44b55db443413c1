-- ===== src/Bootstrap/Runs.antt =====
-- src/bootstrap.rs: when a bootstrap node runs, and on which address.
use hyperswarm_rs.Prelude.{
  ◌≡◌, refl, ◌↔◌, Option, none, some, List, [], ◌∷◌, IoResult, ok, err, returns, arith, false,
}
use hyperswarm_rs.Net.{SocketAddr}
use hyperswarm_rs.Util.{to_socket_addr}
use hyperswarm_rs.Config.{DhtSettings, unwrap_or}
use hyperswarm_rs.Prelude.Io.{>>=-eq-ok}
use hyperswarm_rs.Bootstrap.{
  DhtNode, new, default_dht_bind_addr, with_addr, default_node, run, run_bootstrap_node,
}

module _ {C A B D : Type 0} (dht : DhtSettings C A) (node : DhtNode C B D) where
  -- What is asked for: a node that knows no other and stays, on the first address of those resolved.
  abbrev pub Started : IoResult (List SocketAddr) → SocketAddr → D → Type 0
  Started resolved local bs =
      (wanted : SocketAddr) × (rest : List SocketAddr) × (bound : B) × (resolved
        ≡ ok (wanted ∷ rest))
      × (node.bind (dht.set_ephemeral (dht.empty_bootstrap_nodes dht.default) false) wanted
          ≡ ok bound)
      × (node.with_config bound ≡ ok bs)
      × (node.local_addr bs ≡ ok local)

  run_inverted :
      (config : C) (addr local : SocketAddr) (bs : D)
      → run dht node (new config (some addr)) ≡ ok (local, bs)
      → (bound : B) × (node.bind config addr ≡ ok bound)
        × (node.with_config bound ≡ ok bs)
        × (node.local_addr bs ≡ ok local)
  unfolding run
  run_inverted config addr local bs h =
      let p = >>=-eq-ok (node.bind config addr) _ h in
      let q = >>=-eq-ok (node.with_config p.0) _ p.1 in
      let r = >>=-eq-ok (node.local_addr q.0) _ q.1 in
      (p.0, p.2, ground (arith, q.2, r.1), ground (arith, r.2, r.1))

  runs :
      (resolved : IoResult (List SocketAddr)) (local : SocketAddr) (bs : D)
      → (run_bootstrap_node dht node (some resolved) ≡ returns (ok (local, bs)))
        ↔ Started resolved local bs
  unfolding run_bootstrap_node with_addr run to_socket_addr
  runs (err e) local bs = (λ h. cc, λ (wanted, rest, bound, same, _, _, _). cc)
  runs (ok []) local bs = (λ h. cc, λ (wanted, rest, bound, same, _, _, _). cc)
  runs (ok (wanted ∷ rest)) local bs = (
    λ h.
        let (bound, binds, makes, found) =
          run_inverted (dht.set_ephemeral (dht.empty_bootstrap_nodes dht.default) false) wanted
            local bs (ground arith) in
        (wanted, rest, bound, refl, binds, makes, found),
    λ (wanted', rest', bound, same, binds, makes, found). ground arith,
  )

  -- Without an address it is the default one, unless that panics.
  by_default :
      (result : IoResult (SocketAddr × D))
      → (run_bootstrap_node dht node none ≡ returns result)
      → run_bootstrap_node dht node (some (node.resolve default_dht_bind_addr)) ≡ returns result
  unfolding run_bootstrap_node default_node
  by_default result h = ground arith

  by_default_ok :
      (result : SocketAddr × D)
      → run_bootstrap_node dht node (some (node.resolve default_dht_bind_addr))
        ≡ returns (ok result)
      → run_bootstrap_node dht node none ≡ returns (ok result)
  unfolding run_bootstrap_node default_node
  by_default_ok result h = ground arith

  -- `run_bootstrap_node` gives a table and its local address exactly when the address asked for, or
  -- the default one if none is given, resolves to at least one address, and the table is made of the
  -- default configuration without bootstrap nodes and not ephemeral, bound to the first of these,
  -- and has that local address.
  pub run_bootstrap_node-Started :
      (addr : Option (IoResult (List SocketAddr))) (local : SocketAddr) (bs : D)
      → (run_bootstrap_node dht node addr ≡ returns (ok (local, bs)))
        ↔ Started (unwrap_or addr (node.resolve default_dht_bind_addr)) local bs
  run_bootstrap_node-Started none local bs =
      let (there, back) = runs (node.resolve default_dht_bind_addr) local bs in
      (
        λ h. there (by_default (ok (local, bs)) h),
        λ started. by_default_ok (local, bs) (back started),
      )
  run_bootstrap_node-Started (some resolved) local bs = runs resolved local bs
