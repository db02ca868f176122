-- ===== src/Json.antt =====
-- JSON values (serde_json::Value) and the functions of crates/soroban-upgrades-core/src/lib.rs that
-- read or rewrite them without regard to a contract: `strip_documentation`, `UniqueJson` and
-- `parse_json_strict`.
pub mod Value
pub mod Strict
pub mod Documentation
