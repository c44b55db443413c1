-- ===== src/Util.antt =====
-- src/util.rs: address resolution and topic hashes.
use hyperswarm_rs.Prelude.{ℕ, List, new, invalid_input, IoResult, Outcome, first}
use hyperswarm_rs.Prelude.Io
use hyperswarm_rs.Prelude.Io.{ok_or}
use hyperswarm_rs.Prelude.Outcomes
use hyperswarm_rs.Net.{SocketAddr}
use hyperswarm_rs.Discovery.{Topic, topic_from}

-- `resolved` is what `addr.to_socket_addrs()` results in.
unfoldable pub to_socket_addr : IoResult (List SocketAddr) → IoResult SocketAddr
to_socket_addr resolved =
    Io.◌>>=◌ resolved λ addrs. ok_or (first addrs) (new invalid_input "Invalid socket address")

-- The crate blake2_rfc over a hasher `H`. `with_key` panics where the crate refuses the key.
pub record Blake2b (H : Type 0) : Type 0 where
  pub with_key : ℕ → List ℕ → Outcome H
  pub update : List ℕ → H → H
  pub finalize : H → List ℕ

-- The conversion of the digest to 32 bytes panics if it has another length.
unfoldable pub hash_topic : {H : Type 0} → Blake2b H → List ℕ → List ℕ → Outcome Topic
hash_topic blake namespace topic =
    Outcomes.◌>>=◌ (blake.with_key 32 topic)
      λ hasher. Outcomes.unwrap (topic_from (blake.finalize (blake.update namespace hasher)))
