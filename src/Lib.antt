-- ===== src/Lib.antt =====
-- Soroban Upgrades compares two compiled Soroban contracts before a release: it reads a source and a
-- target WASM file with the storage schemas, the schema history and the policy that go with them,
-- reports findings, traces how changed types reach public functions, and makes a plan for signers
-- that can be verified later. The development models the core crate,
-- crates/soroban-upgrades-core/src/lib.rs, and the decisions of the command line,
-- crates/soroban-upgrades-cli/src/main.rs; the paths are from the repository's root.
--
-- The parts, in the order in which data goes through them:
--   * Json: serde_json's values; `parse_json_strict` with its visitor that refuses a repeated key
--     (Json/Strict); `strip_documentation` (Json/Documentation).
--   * Artifact: `Artifact` and its parts; the types of a specification and `collect_udt_names`
--     (Artifact/Spec); the readers of the custom sections and of the imports (Artifact/Wasm); the
--     direct-call graph, `inspect_export_call_evidence` and `collect_export_call_evidence`
--     (Artifact/Calls); `Artifact::from_wasm` (Artifact/Load).
--   * Policy, Schema, Report: the declarations, the network context, findings and reports.
--   * Checks: one file for each family of tests that push findings: Checks/Network (`check_policy`,
--     `check_environment_compatibility`, `check_protocol_context`), Checks/Capability
--     (`check_cap_0086`, `check_upgrade_host_capability`), Checks/Interface (`compare_interfaces`,
--     `check_versions`), Checks/Storage (`validate_schema_manifests`, `compare_storage_schemas`),
--     Checks/History (`validate_schema_history`). A Rust `&mut Vec<Finding>` is a list that the
--     function returns, and the caller appends. The module Passes under each says which inputs
--     give no error.
--   * Impact: `routes_to_type` and `trace_public_impacts`.
--   * Validation: `validate_with_history`, which runs the checks, sorts what they push, and sets
--     `safe`; `build_evidence_coverage` (Validation/Evidence).
--   * Plan: `create_plan_with_paths` and `create_plan` (Plan/Create) with the guards on texts and calls
--     (Plan/Guards), the search for private keys (Plan/Secret) and the commands (Plan/Shell);
--     `verify_plan_digest` (Plan/Verify), which validates the embedded evidence and makes the plan
--     again.
--   * Cli: the files, the network evidence and their failures (`read_bounded`, `load_report`,
--     `resolve_validation_context`, `fetch_contract_artifact`), `parse_named_arguments`
--     (Cli/Arguments), and the commands `validate`, `plan` and `verify-plan` with their exit codes
--     (Cli/Commands). `Environment` holds what one run finds: files, the Stellar CLI, the clock.
--   * Base: what the parts share: `Error` and `Result`, lists, texts, the derived orders, ordered
--     maps and sets, a stable sort. Samples: a small release, and each result at it.
--
-- Numbers: u32 and usize values are natural numbers. The program adds to them only lengths and
-- counts of collections in memory, so no sum wraps; where it tests a conversion to u32, the test is
-- in the model.
--
-- Loops and fuel: loops over collections are structural. The worklist of
-- `collect_export_call_evidence` has one round for the entry and one for each call of each body as
-- fuel, and Artifact/Calls/Bound shows that this is never used up. The stack of `routes_to_type` has
-- one round more than MAX_PUBLIC_IMPACT_STEPS as fuel: every round counts a step, and the loop ends
-- when the count exceeds that limit (Impact/Limits).
--
-- Parameters: code outside the repository is a field of a record that the definitions take: `Crates`
-- (wasmparser, soroban_spec, stellar_xdr, sha2), `Reader` (serde_json), `External` (semver,
-- serde_json, sha2, the crate version), `PlanExternal` (stellar_strkey, serde_json) and `Environment`
-- (std::fs, std::process, the clock). Of them the theorems that say so assume `KeepsDigestApart`, that
-- the serialiser writes `planSha256` under a key of its own, and `KeepsPaths`, that a path is made
-- again from its text.
--
-- Not modelled: what the command line prints, and that it may fail to serialise it; the commands
-- `inspect` and `schema`; the write of a plan to its output file; the JSON schemas and serialisers
-- that derives generate; the examples, the experiment and the fuzz targets.
pub mod Base
pub mod Json
pub mod Artifact
pub mod Policy
pub mod Schema
pub mod Report
pub mod Checks
pub mod Impact
pub mod Validation
pub mod Plan
pub mod Cli
pub mod Samples
