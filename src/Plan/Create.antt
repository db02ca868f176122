-- ===== src/Plan/Create.antt =====
-- `create_plan` and `create_plan_with_paths`: from a validation report to the steps of a plan.
pub mod Steps
pub mod Ready
pub mod Contents
use soroban_upgrades.Base.{
  ℕ, ◌+◌, String, Bool, true, false, not, ◌&&◌, ◌||◌, List, [], ◌∷◌, ◌++◌, Option, none, some, any,
  if◌then◌else◌, is_none, is_some, filter_map, flat_map, str_eq, length, same,
}
use soroban_upgrades.Base.Order.{string_ord}
use soroban_upgrades.Base.BTreeMap.{BTreeMap}
use soroban_upgrades.Base.BTreeSet
use soroban_upgrades.Base.BTreeSet.{BTreeSet}
use soroban_upgrades.Base.Result.{
  Error, Result, ok, err, ◌>>=◌, ◌>>◌, fail_if, plan, invalid_contract_id,
}
use soroban_upgrades.Base.Text.{◌<>◌, join}
use soroban_upgrades.Json.Value.{Value, object, Fields, end, field}
use soroban_upgrades.Artifact.{version}
use soroban_upgrades.Policy.{
  ProtocolSource, unpinned, stellar_cli_network_info, ProtocolSource-discrete,
}
use soroban_upgrades.Schema.{StorageEntry, StorageSchema, Migration}
use soroban_upgrades.Report.{ValidationReport, is_error, Finding}
use soroban_upgrades.Plan.{
  PlanStepKind, verify_current_executable, upload_target_wasm, simulate_upgrade, execute_upgrade,
  execute_migration, verify_executable, verify_invariants, PlanStatus, offline_draft, review_ready,
  PlanStep, new_step, MigrationCall, InvariantCheck, PlanOperations, PlanInputPaths, UpgradePlan,
}
use soroban_upgrades.Plan.External.{PlanExternal}
use soroban_upgrades.Plan.Secret.{contains_stellar_private_key}
use soroban_upgrades.Plan.Guards.{
  validate_plan_string, validate_plan_input_paths, validate_invariant_check,
  validate_source_identity, validate_call_arguments, validate_standard_upgrade_entrypoint,
  same_names,
}
use mathlib.Core.Option

-- `object.remove(key)`
abbrev pub remove_member : String → Fields → Fields
remove_member k end = end
remove_member k (field j v fs) = if str_eq j k then fs else field j v (remove_member k fs)

abbrev pub without_digest : Value → Result Value
without_digest (object fs) = ok (object (remove_member "planSha256" fs))
without_digest v = err (plan "serialized plan is not a JSON object")

unfoldable pub calculate_plan_sha256 : PlanExternal → UpgradePlan → Result String
calculate_plan_sha256 x p = x.plan_to_value p >>= without_digest >>= x.value_to_vec >>= λ bytes.
    ok (x.checks.sha256_hex bytes)

-- The evidence of the network, against the network of the plan.
abbrev pub check_network : (network : String) → Option String → Result (Unit {0})
check_network network (some evidence_network) = fail_if (not (str_eq evidence_network network)) (
    plan (
      "plan network `" <> network <> "` does not match protocol evidence for `" <> evidence_network
      <> "`"))
check_network network none = err (plan "protocol evidence is not bound to the plan network")

abbrev pub entrypoint_of : StorageEntry → Option String
entrypoint_of entry = migration_entrypoint entry.migration
  where
    migration_entrypoint : Option Migration → Option String
    migration_entrypoint none = none
    migration_entrypoint (some m) = m.entrypoint

-- The migration entrypoints that the target's schema declares, and the one that is selected.
unfoldable pub declared_entrypoints : Option StorageSchema → BTreeSet String
declared_entrypoints none = []
declared_entrypoints (some schema) = BTreeSet.collect (filter_map entrypoint_of schema.entries)

abbrev pub selected_entrypoint : Option MigrationCall → BTreeSet String
selected_entrypoint none = []
selected_entrypoint (some call) = call.entrypoint ∷ []

-- `finding.code == "STO002"`
unfoldable pub storage_migration_required : ValidationReport → Bool
storage_migration_required report = any (λ (f : Finding). str_eq f.code "STO002") report.findings

unfoldable pub check_migration : ValidationReport → Option MigrationCall → Result (Unit {0})
unfolding storage_migration_required declared_entrypoints
check_migration report migration =
    let required = storage_migration_required report in
    let declared = declared_entrypoints report.target_schema in
    let selected = selected_entrypoint migration in
    fail_if (required && is_none migration)
      (plan "storage layout changed but no migration entrypoint was selected")
    >> fail_if (required && not (same_names declared selected)) (
        plan (
          "selected migration ["
          <> join ", " selected
          <> "] does not match declared entrypoints ["
          <> join ", " declared
          <> "]"))

unfoldable pub is_unpinned : ValidationReport → Bool
is_unpinned report =
    is_none report.context.target_protocol_version
    || same ProtocolSource-discrete report.context.protocol_source unpinned

module _ (x : PlanExternal) where
  abbrev pub check_migration_call : ValidationReport → Option MigrationCall → Result (Unit {0})
  check_migration_call report none = ok tt
  check_migration_call report (some call) =
      validate_call_arguments x report.target call.entrypoint call.arguments "migration"

  -- Every test before the steps are made, in the order of the function.
  unfoldable pub check_plan :
      ValidationReport
      → (network contract_id source_identity : String) → PlanInputPaths
      → PlanOperations
      → Result (Unit {0})
  unfolding is_unpinned check_migration
  check_plan report network contract_id source_identity inputs operations =
      validate_plan_input_paths x inputs
      >> validate_plan_string x "network" network 256
      >> fail_if (not (x.is_contract_id contract_id)) (invalid_contract_id contract_id)
      >> fail_if (not report.safe || any is_error report.findings)
          (plan "validation report contains release-blocking findings")
      >> fail_if (is_unpinned report)
          (plan "target protocol and its evidence source are not pinned in the validation report")
      >> check_network network report.context.network_name
      >> fail_if (not report.storage_schema_checked)
          (plan "storage schemas were not checked in the validation report")
      >> fail_if (not report.schema_history_checked || is_none report.schema_history_sha256)
          (plan "cumulative schema history was not checked in the validation report")
      >> validate_source_identity x source_identity
      >> check_migration report operations.migration
      >> validate_standard_upgrade_entrypoint x report.source
      >> validate_standard_upgrade_entrypoint x report.target
      >> check_migration_call report operations.migration
      >> validate_invariant_check x operations.invariant_check

-- `for (name, value) in &migration.arguments { push(format!("--{name}")); push(value) }`
abbrev pub call_arguments : BTreeMap String → List String
call_arguments arguments = flat_map (λ (name, value). ("--" <> name) ∷ value ∷ []) arguments

abbrev pub migration_steps :
    (network contract_id source_identity : String) → Option MigrationCall → List PlanStep
migration_steps network contract_id source_identity none = []
migration_steps network contract_id source_identity (some call) =
    new_step 5 execute_migration "stellar"
      (("contract" ∷ "invoke" ∷ "--id" ∷ contract_id ∷ "--source-account" ∷ source_identity
          ∷ "--network" ∷ network ∷ "--" ∷ call.entrypoint ∷ [])
        ++ call_arguments call.arguments)
      "Migration succeeds once and records the new schema version"
    ∷ []

-- The steps before the migration.
abbrev pub upgrade_steps :
    (network contract_id source_identity target_wasm source_hash target_hash : String)
    → List PlanStep
upgrade_steps network contract_id source_identity target_wasm source_hash target_hash =
    new_step 1 verify_current_executable "stellar"
      ("contract" ∷ "fetch" ∷ "--id" ∷ contract_id ∷ "--network" ∷ network ∷ "--out-file"
        ∷ "current.wasm" ∷ [])
      ("Fetched WASM SHA-256 equals " <> source_hash)
    ∷ new_step 2 upload_target_wasm "stellar"
        ("contract" ∷ "upload" ∷ "--wasm" ∷ target_wasm ∷ "--optimize=false" ∷ "--source-account"
          ∷ source_identity ∷ "--network" ∷ network ∷ [])
        ("WASM hash " <> target_hash)
    ∷ new_step 3 simulate_upgrade "stellar"
        ("contract" ∷ "invoke" ∷ "--id" ∷ contract_id ∷ "--source-account" ∷ source_identity
          ∷ "--network" ∷ network ∷ "--send" ∷ "no" ∷ "--" ∷ "upgrade" ∷ "--new_wasm_hash"
          ∷ target_hash ∷ "--operator" ∷ source_identity ∷ [])
        "Successful simulation with expected authorization and resource footprint"
    ∷ new_step 4 execute_upgrade "stellar"
        ("contract" ∷ "invoke" ∷ "--id" ∷ contract_id ∷ "--source-account" ∷ source_identity
          ∷ "--network" ∷ network ∷ "--" ∷ "upgrade" ∷ "--new_wasm_hash" ∷ target_hash
          ∷ "--operator" ∷ source_identity ∷ [])
        "Successful executable_update system event"
    ∷ []

-- The steps after the migration, from a position on.
abbrev pub verification_steps :
    (next : ℕ) (network contract_id target_hash : String) → InvariantCheck → List PlanStep
verification_steps next network contract_id target_hash check =
    new_step next verify_executable "stellar"
      ("contract" ∷ "fetch" ∷ "--id" ∷ contract_id ∷ "--network" ∷ network ∷ "--out-file"
        ∷ "deployed.wasm" ∷ [])
      ("Fetched WASM SHA-256 equals " <> target_hash)
    ∷ new_step (next + 1) verify_invariants check.program check.arguments
        "The application-specific post-upgrade invariants pass"
    ∷ []

unfoldable pub plan_steps :
    ValidationReport
    → (network contract_id source_identity target_wasm : String) → PlanOperations
    → List PlanStep
plan_steps report network contract_id source_identity target_wasm operations =
    let steps =
      upgrade_steps network contract_id source_identity target_wasm report.source.sha256
        report.target.sha256
      ++ migration_steps network contract_id source_identity operations.migration in
    steps
    ++ verification_steps (length steps + 1) network contract_id report.target.sha256
        operations.invariant_check

-- The plan before its digest is set.
unfoldable pub draft_plan :
    ValidationReport
    → (network contract_id source_identity : String) → PlanInputPaths
    → PlanOperations
    → UpgradePlan
unfolding plan_steps
draft_plan report network contract_id source_identity inputs operations = record {
  format_version = 3;
  plan_sha256 = "";
  status =
      if same ProtocolSource-discrete report.context.protocol_source stellar_cli_network_info
      then review_ready
      else offline_draft;
  network = network;
  contract_id = contract_id;
  source_identity = source_identity;
  inputs = inputs;
  source_wasm_sha256 = report.source.sha256;
  target_wasm_sha256 = report.target.sha256;
  rollback_wasm_sha256 = report.source.sha256;
  from_version = version report.source;
  to_version = version report.target;
  migration = operations.migration;
  invariant_check = operations.invariant_check;
  validation = report;
  steps = plan_steps report network contract_id source_identity inputs.target_wasm operations;
}

-- `plan.plan_sha256 = digest`
abbrev pub with_digest : String → UpgradePlan → UpgradePlan
with_digest digest p = record p { plan_sha256 = digest }

unfoldable pub seal_plan : PlanExternal → UpgradePlan → Result UpgradePlan
unfolding calculate_plan_sha256
seal_plan x draft = x.plan_to_text draft >>= λ encoded.
    fail_if (contains_stellar_private_key x encoded)
      (plan "plan evidence must not contain a Stellar private key")
    >> (calculate_plan_sha256 x draft >>= λ digest. ok (with_digest digest draft))

unfoldable pub create_plan_with_paths :
    PlanExternal
    → ValidationReport
    → (network contract_id source_identity : String) → PlanInputPaths
    → PlanOperations
    → Result UpgradePlan
unfolding check_plan draft_plan seal_plan
create_plan_with_paths x report network contract_id source_identity inputs operations =
    check_plan x report network contract_id source_identity inputs operations
    >> seal_plan x (draft_plan report network contract_id source_identity inputs operations)

unfoldable pub create_plan :
    PlanExternal
    → ValidationReport
    → (network contract_id source_identity target_wasm_path : String)
    → (migration_entrypoint : Option String) → Result UpgradePlan
unfolding create_plan_with_paths
create_plan x report network contract_id source_identity target_wasm_path migration_entrypoint =
    create_plan_with_paths x report network contract_id source_identity
      (record {
        source_wasm = "source.wasm";
        target_wasm = target_wasm_path;
        source_schema = "source.schema.json";
        target_schema = "target.schema.json";
        schema_history = "schema-history.json";
        policy = none;
      })
      (record {
        migration =
            Option.map
              (λ (entrypoint : String). record {
                entrypoint = entrypoint;
                arguments = ("operator", source_identity) ∷ [];
              })
              migration_entrypoint;
        invariant_check = record { program = "cargo"; arguments = "test" ∷ "--workspace" ∷ [] };
      })
