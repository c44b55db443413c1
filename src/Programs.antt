-- ===== src/Programs.antt =====
-- The programs hyperswarm-bootstrap/src/main.rs and examples/simple.rs.
pub mod Node
pub mod Simple
