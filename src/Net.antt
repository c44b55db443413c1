-- ===== src/Net.antt =====
-- std::net addresses, as far as the source builds, compares and copies them.
use hyperswarm_rs.Prelude.{ℕ, ℕ_discrete}

pub data IpAddr : Type 0 where
  v4 v6 : ℕ → IpAddr

-- A V6 socket address also has its flow information and scope.
pub data SocketAddr : Type 0 where
  socket_v4 : (ip port : ℕ) → SocketAddr
  socket_v6 : (ip port flowinfo scope_id : ℕ) → SocketAddr

unfoldable pub SocketAddr-discrete : Discrete SocketAddr
unfolding ℕ_discrete
SocketAddr-discrete = hlevel ℕ_discrete

-- SocketAddr::new
abbrev pub socket_addr : IpAddr → ℕ → SocketAddr
socket_addr (v4 ip) port = socket_v4 ip port
socket_addr (v6 ip) port = socket_v6 ip port 0 0

abbrev pub port_of : SocketAddr → ℕ
port_of (socket_v4 ip port) = port
port_of (socket_v6 ip port flowinfo scope_id) = port
