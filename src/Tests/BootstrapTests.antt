-- ===== src/Tests/BootstrapTests.antt =====
-- Runs of the model of src/bootstrap.rs.
use hyperswarm_rs.Prelude.{ℕ, ◌≡◌, refl, ◌↔◌, Bool, false, none, some, List, [], ◌∷◌, ok, returns}
use hyperswarm_rs.Net.{SocketAddr}
use hyperswarm_rs.Util.{to_socket_addr}
use hyperswarm_rs.Bootstrap.{DhtNode, with_addr, default_node, run, run_bootstrap_node}
use hyperswarm_rs.Bootstrap.Runs.{Started, run_bootstrap_node-Started}
use hyperswarm_rs.Tests.Doubles.{peer, settings}

-- A table is its configuration and its address.
abbrev node : DhtNode (List ℕ × Bool) (SocketAddr × List ℕ × Bool) (SocketAddr × List ℕ × Bool)
node = record {
  resolve = λ text. ok (peer 0 ∷ []);
  bind = λ config addr. ok (addr, config.0, config.1);
  with_config = λ bound. ok bound;
  local_addr = λ bs. ok bs.0;
  next = λ bs. bs;
}

default_runs : run_bootstrap_node settings node none ≡ returns (ok (peer 0, (peer 0, [], false)))
unfolding run_bootstrap_node default_node with_addr run to_socket_addr
default_runs = refl

run_bootstrap_node-Started_example :
    (run_bootstrap_node settings node (some (ok (peer 5 ∷ peer 6 ∷ [])))
      ≡ returns (ok (peer 5, (peer 5, [], false))))
    ↔ Started settings node (ok (peer 5 ∷ peer 6 ∷ [])) (peer 5) (peer 5, [], false)
run_bootstrap_node-Started_example =
    run_bootstrap_node-Started settings node (some (ok (peer 5 ∷ peer 6 ∷ []))) (peer 5)
      (peer 5, [], false)
