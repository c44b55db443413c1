-- ===== src/Tests.antt =====
-- Runs of the model on concrete inputs: scripted stand-ins for the other crates' parts, and the theorems
-- applied to them.
pub mod Doubles
pub mod Wire
mod BootstrapTests
mod ConfigTests
mod DhtTests
mod MdnsTests
mod TransportTests
mod StreamTests
mod SwarmTests
mod HyperchatTests
mod SystemTests
mod ChatTests
mod ProgramTests
mod SimpleTests
mod HandleTests
