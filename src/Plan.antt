-- ===== src/Plan.antt =====
-- The upgrade plan of crates/soroban-upgrades-core/src/lib.rs: its data; the modules below create and
-- verify plans.
pub mod Shell
pub mod Secret
pub mod External
pub mod Guards
pub mod Create
pub mod Verify
use native.Mathlib.Decide.{ℕ_discrete}
use soroban_upgrades.Base.{ℕ, String, List, Option, String-discrete}
use soroban_upgrades.Base.BTreeMap.{BTreeMap}
use soroban_upgrades.Report.{ValidationReport, ValidationReport-discrete}
use Shell.{render_command}

pub data PlanStepKind : Type 0 where
  verify_current_executable upload_target_wasm simulate_upgrade : PlanStepKind
  execute_upgrade execute_migration verify_executable verify_invariants : PlanStepKind

pub data PlanStatus : Type 0 where
  offline_draft review_ready : PlanStatus

pub record PlanStep : Type 0 where
  pub position : ℕ
  pub kind : PlanStepKind
  pub program : String
  pub arguments : List String
  pub command : String
  pub expected : String

pub record MigrationCall : Type 0 where
  pub entrypoint : String
  pub arguments : BTreeMap String

pub record InvariantCheck : Type 0 where
  pub program : String
  pub arguments : List String

pub record PlanOperations : Type 0 where
  pub migration : Option MigrationCall
  pub invariant_check : InvariantCheck

pub record PlanInputPaths : Type 0 where
  pub source_wasm : String
  pub target_wasm : String
  pub source_schema : String
  pub target_schema : String
  pub schema_history : String
  pub policy : Option String

-- `PlanStep::new`: the command is rendered from the program and its arguments.
abbrev pub new_step :
    (position : ℕ)
    → PlanStepKind
    → (program : String) → (arguments : List String) → (expected : String) → PlanStep
new_step position kind program arguments expected = record {
  position = position;
  kind = kind;
  program = program;
  arguments = arguments;
  command = render_command program arguments;
  expected = expected;
}

pub record UpgradePlan : Type 0 where
  pub format_version : ℕ
  pub plan_sha256 : String
  pub status : PlanStatus
  pub network : String
  pub contract_id : String
  pub source_identity : String
  pub inputs : PlanInputPaths
  pub source_wasm_sha256 : String
  pub target_wasm_sha256 : String
  pub rollback_wasm_sha256 : String
  pub from_version : Option String
  pub to_version : Option String
  pub migration : Option MigrationCall
  pub invariant_check : InvariantCheck
  pub validation : ValidationReport
  pub steps : List PlanStep

unfoldable pub PlanStepKind-discrete : Discrete PlanStepKind
PlanStepKind-discrete = hlevel

unfoldable pub UpgradePlan-discrete : Discrete UpgradePlan
unfolding String-discrete ℕ_discrete PlanStepKind-discrete ValidationReport-discrete
UpgradePlan-discrete =
    hlevel (ℕ_discrete, String-discrete, PlanStepKind-discrete, ValidationReport-discrete)
