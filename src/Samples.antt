-- ===== src/Samples.antt =====
-- A small release, and concrete stand-ins for the crates, for the tests and the witnesses.
pub mod Release
pub mod Core
pub mod Checks
pub mod Impacts
pub mod Plans
pub mod Files
pub mod Commands
pub mod Parts
