-- ===== src/Checks.antt =====
-- The checks of crates/soroban-upgrades-core/src/lib.rs. Each one is the list of findings that the
-- function of its name appends to the vector that it is given; no check reads that vector.
pub mod External
pub mod Network
pub mod Capability
pub mod Interface
pub mod Storage
pub mod History
