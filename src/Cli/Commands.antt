-- ===== src/Cli/Commands.antt =====
-- The commands `validate`, `plan` and `verify-plan` of crates/soroban-upgrades-cli/src/main.rs, up to
-- what they print and write.
pub mod Verified
pub mod Loaded
pub mod Made
pub mod Planned
pub mod Live
pub mod Validated
use native.Mathlib.Decide.{ℕ_discrete}
use soroban_upgrades.Base.{
  ℕ, String, Bool, true, false, not, ◌||◌, List, [], ◌∷◌, Option, none, some, str_eq, same, is_none,
  is_some_and, String-discrete, if◌then◌else◌,
}
use soroban_upgrades.Base.Text.{◌<>◌}
use soroban_upgrades.Artifact.{Artifact, Artifact-discrete}
use soroban_upgrades.Policy.{Policy-discrete}
use soroban_upgrades.Schema.{StorageSchema-discrete, SchemaHistory-discrete}
use soroban_upgrades.Json.Strict.{parse_json_strict}
use soroban_upgrades.Plan.{
  PlanStatus, offline_draft, review_ready, MigrationCall, PlanInputPaths, PlanOperations,
  UpgradePlan,
}
use soroban_upgrades.Report.{ValidationReport}
use soroban_upgrades.Plan.Create.{create_plan_with_paths}
use soroban_upgrades.Plan.Verify.{verify_plan_digest}
use soroban_upgrades.Cli.{
  Environment, read_bounded, max_json_input_size_bytes, load_artifact, load_schema, load_policy,
  load_schema_history, load_report, path_text, resolve_live_network, resolve_validation_context,
  fetch_contract_artifact,
}
use soroban_upgrades.Cli.Anyhow.{
  Outcome, done, failed, ◌>>=◌, ◌>>◌, bail_if, with_context, from_core, some_or,
}
use soroban_upgrades.Cli.Arguments.{parse_named_arguments}

-- An exit code: 0 for `ExitCode::SUCCESS`, 1 for `ExitCode::FAILURE`. `main` turns an error into a
-- failure.
abbrev pub exit_code : Outcome ℕ → ℕ
exit_code (done code) = code
exit_code (failed e) = 1

unfoldable pub PlanStatus-discrete : Discrete PlanStatus
PlanStatus-discrete = hlevel

unfoldable pub OptionText-discrete : Discrete (Option String)
OptionText-discrete = hlevel String-discrete

unfoldable pub OptionNumber-discrete : Discrete (Option ℕ)
OptionNumber-discrete = hlevel ℕ_discrete

-- The arguments of `plan` that make the plan.
pub record PlanArguments (PathBuf : Type 0) : Type 0 where
  pub from : PathBuf
  pub to : PathBuf
  pub from_schema : PathBuf
  pub to_schema : PathBuf
  pub network : String
  pub contract_id : String
  pub source_identity : String
  pub migration_entrypoint : Option String
  pub migration_args : List String
  pub invariant_program : String
  pub invariant_args : List String
  pub policy : Option PathBuf
  pub protocol_version : Option ℕ
  pub schema_history : PathBuf

-- `plan` refuses an unsafe report with the exit code 2, or has a plan to print or to write.
pub data PlanAnswer : Type 0 where
  blocked : PlanAnswer
  planned : UpgradePlan → PlanAnswer

module _ (e : Environment) where
  unfoldable pub make_sure_current_contract_matches :
      (network contract_id expected_sha256 : String) → Outcome (Unit {0})
  make_sure_current_contract_matches network contract_id expected_sha256 =
      fetch_contract_artifact e network contract_id >>= λ artifact.
      bail_if (not (str_eq artifact.sha256 expected_sha256)) (
        "contract " <> contract_id <> " on `" <> network <> "` runs " <> artifact.sha256
        <> ", but the source artifact is " <> expected_sha256)

  -- One round of the loop over the source and the target.
  unfoldable pub artifact_matches :
      (label path expected_hash : String) → Artifact → Outcome (Unit {0})
  artifact_matches label path expected_hash expected_artifact =
      load_artifact e (e.new_path path) >>= λ artifact.
      bail_if (not (str_eq artifact.sha256 expected_hash)) (
        label
        <> " artifact "
        <> e.display (e.new_path path)
        <> " hashes to "
        <> artifact.sha256
        <> ", but the plan requires "
        <> expected_hash)
      >> bail_if (not (same Artifact-discrete artifact expected_artifact)) (
          label
          <> " artifact "
          <> e.display (e.new_path path)
          <> " does not match the parsed artifact evidence in the plan")

  unfoldable pub make_sure_plan_artifacts_match : UpgradePlan → Outcome (Unit {0})
  unfolding artifact_matches
  make_sure_plan_artifacts_match p =
      artifact_matches "source" p.inputs.source_wasm p.source_wasm_sha256 p.validation.source
      >> artifact_matches "target" p.inputs.target_wasm p.target_wasm_sha256 p.validation.target

  -- `plan.inputs.policy.as_deref().map(Path::new)`
  abbrev pub optional_path : Option String → Option e.PathBuf
  optional_path none = none
  optional_path (some text) = some (e.new_path text)

  unfoldable pub make_sure_plan_declarations_match : UpgradePlan → Outcome (Unit {0})
  make_sure_plan_declarations_match p =
      load_schema e (e.new_path p.inputs.source_schema) >>= λ source_schema.
      load_schema e (e.new_path p.inputs.target_schema) >>= λ target_schema.
      load_schema_history e (some (e.new_path p.inputs.schema_history)) >>= λ loaded.
      some_or loaded "plan schema history path is missing" >>= λ history.
      load_policy e (optional_path p.inputs.policy) >>= λ policy.
      bail_if
        (not (
          is_some_and p.validation.source_schema
            (λ s. same StorageSchema-discrete s source_schema)))
        "source schema file does not match the evidence in the plan"
      >> bail_if
          (not (
            is_some_and p.validation.target_schema
              (λ s. same StorageSchema-discrete s target_schema)))
          "target schema file does not match the evidence in the plan"
      >> bail_if
          (not
            (is_some_and p.validation.schema_history (λ h. same SchemaHistory-discrete h history)))
          "schema history file does not match the evidence in the plan"
      >> bail_if (not (same Policy-discrete p.validation.policy policy))
          "policy file does not match the evidence in the plan"

  unfoldable pub make_sure_plan_network_matches : UpgradePlan → Outcome (Unit {0})
  unfolding OptionText-discrete OptionNumber-discrete
  make_sure_plan_network_matches p = resolve_live_network e p.network >>= λ current.
      let planned = p.validation.context in
      bail_if
        (not (same OptionText-discrete current.network_id planned.network_id)
          || not (same OptionText-discrete current.network_passphrase planned.network_passphrase)
          || not (
              same OptionNumber-discrete current.target_protocol_version
                planned.target_protocol_version))
        ("live network identity or protocol changed after plan creation. Create and review a "
          <> "new plan")

  unfoldable pub load_plan : e.PathBuf → Outcome UpgradePlan
  load_plan path = do
    bytes ← read_bounded e path max_json_input_size_bytes "JSON plan"
    with_context (from_core (parse_json_strict e.plan_reader bytes)) ("parsing " <> e.display path)

  -- The tests that `--offline` leaves out.
  unfoldable pub verify_network_evidence : UpgradePlan → Outcome (Unit {0})
  unfolding PlanStatus-discrete make_sure_plan_network_matches make_sure_current_contract_matches
  verify_network_evidence p =
      bail_if (not (same PlanStatus-discrete p.status review_ready))
        "plan is an offline draft. Create a new plan with live network evidence"
      >> make_sure_plan_network_matches p
      >> make_sure_current_contract_matches p.network p.contract_id p.source_wasm_sha256

  -- The tests of `Command::VerifyPlan` on the plan that it reads.
  unfoldable pub verify_loaded_plan : UpgradePlan → (offline : Bool) → Outcome (Unit {0})
  unfolding make_sure_plan_artifacts_match make_sure_plan_declarations_match verify_network_evidence
  verify_loaded_plan p offline =
      (from_core (verify_plan_digest e.plans p) >>= λ is_valid.
      bail_if (not is_valid) "upgrade plan digest mismatch")
      >> make_sure_plan_artifacts_match p
      >> make_sure_plan_declarations_match p
      >> (if offline then done tt else verify_network_evidence p)

  -- `Command::VerifyPlan`
  unfoldable pub run_verify_plan : (plan : e.PathBuf) (offline : Bool) → Outcome ℕ
  unfolding load_plan verify_loaded_plan
  run_verify_plan plan offline = load_plan plan >>= λ p. verify_loaded_plan p offline >> done 0

  -- `Command::Validate`
  unfoldable pub run_validate :
      (from to from_schema to_schema : e.PathBuf) (policy : Option e.PathBuf)
      (network : Option String) (protocol_version : Option ℕ) (schema_history : e.PathBuf)
      → Outcome ℕ
  run_validate from to from_schema to_schema policy network protocol_version schema_history = do
    context ← resolve_validation_context e network protocol_version
    report ←
        load_report e from to (some from_schema) (some to_schema) policy context
          (some schema_history)
    done (if report.safe then 0 else 2)

  -- `policy.map(path_text).transpose()`
  abbrev pub optional_text : Option e.PathBuf → Outcome (Option String)
  optional_text none = done none
  optional_text (some path) = do text ← path_text e path; done (some text)

  unfoldable pub input_paths : PlanArguments e.PathBuf → Outcome PlanInputPaths
  input_paths a = do
    source_wasm ← path_text e a.from
    target_wasm ← path_text e a.to
    source_schema ← path_text e a.from_schema
    target_schema ← path_text e a.to_schema
    schema_history ← path_text e a.schema_history
    policy ← optional_text a.policy
    done (record {
      source_wasm = source_wasm;
      target_wasm = target_wasm;
      source_schema = source_schema;
      target_schema = target_schema;
      schema_history = schema_history;
      policy = policy;
    })

  abbrev pub migration_of : Option String → List String → Outcome (Option MigrationCall)
  migration_of none migration_args = done none
  migration_of (some entrypoint) migration_args = do
    arguments ← parse_named_arguments migration_args
    done (some (record { entrypoint = entrypoint; arguments = arguments }))

  -- Without an asserted protocol version, the contract must run the source artifact.
  abbrev pub check_current_contract :
      PlanArguments e.PathBuf → ValidationReport → Outcome (Unit {0})
  check_current_contract a report =
      if is_none a.protocol_version
      then make_sure_current_contract_matches a.network a.contract_id report.source.sha256
      else done tt

  -- `Command::Plan`, where the report is safe.
  unfoldable pub plan_of_safe_report :
      PlanArguments e.PathBuf → ValidationReport → Outcome PlanAnswer
  unfolding input_paths make_sure_current_contract_matches
  plan_of_safe_report a report = do
    check_current_contract a report
    inputs ← input_paths a
    migration ← migration_of a.migration_entrypoint a.migration_args
    p ← from_core (
        create_plan_with_paths e.plans report a.network a.contract_id a.source_identity inputs
          (record {
            migration = migration;
            invariant_check = record {
              program = a.invariant_program;
              arguments = a.invariant_args;
            };
          }))
    done (planned p)

  -- `Command::Plan`, up to the plan that is printed or written.
  unfoldable pub run_plan : PlanArguments e.PathBuf → Outcome PlanAnswer
  unfolding plan_of_safe_report
  run_plan a = do
    context ← resolve_validation_context e (some a.network) a.protocol_version
    report ←
        load_report e a.from a.to (some a.from_schema) (some a.to_schema) a.policy context
          (some a.schema_history)
    let answer = plan_of_safe_report a report
    if report.safe then answer else done blocked
