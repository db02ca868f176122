-- ===== src/Plan/Create/Contents.antt =====
-- What a plan that `create_plan_with_paths` makes asks of its signers.
use soroban_upgrades.Base.{
  String, true, ◌≡◌, refl, sym, subst, ◌↔◌, ◌⊎◌, Option, none, some, List, [], ◌∷◌, All, same,
  same_iff, if◌then◌else◌, arith,
}
use soroban_upgrades.Policy.{ProtocolSource, stellar_cli_network_info, ProtocolSource-discrete}
use soroban_upgrades.Report.{ValidationReport}
use soroban_upgrades.Plan.{
  PlanStepKind, verify_current_executable, upload_target_wasm, simulate_upgrade, execute_upgrade,
  execute_migration, verify_executable, verify_invariants, review_ready, offline_draft, PlanStep,
  PlanOperations, MigrationCall, InvariantCheck, PlanInputPaths, UpgradePlan,
}
use soroban_upgrades.Base.Result.{ok}
use soroban_upgrades.Artifact.{version}
use soroban_upgrades.Plan.External.{PlanExternal}
use soroban_upgrades.Plan.Create.{create_plan_with_paths, draft_plan, plan_steps, with_digest}
use soroban_upgrades.Plan.Create.Ready.{create_plan_with_paths-eq-ok_iff}

-- The value stands behind the flag among the arguments.
abbrev pub Passes : (flag value : String) → List String → Type 0
Passes flag value [] = ⊥
Passes flag value (a ∷ []) = ⊥
Passes flag value (a ∷ b ∷ rest) = ((a ≡ flag) × (b ≡ value)) ⊎ Passes flag value (b ∷ rest)

-- What a step of each kind gives to the Stellar CLI: the network, the contract or the file, the
-- account that signs, and the hash of the target where it is installed.
abbrev pub Gives : UpgradePlan → PlanStepKind → List String → Type 0
Gives p verify_current_executable arguments = Passes "--id" p.contract_id arguments
Gives p upload_target_wasm arguments =
    Passes "--wasm" p.inputs.target_wasm arguments
    × Passes "--source-account" p.source_identity arguments
Gives p simulate_upgrade arguments =
    Passes "--id" p.contract_id arguments
    × Passes "--source-account" p.source_identity arguments
    × Passes "--send" "no" arguments
    × Passes "--new_wasm_hash" p.validation.target.sha256 arguments
Gives p execute_upgrade arguments =
    Passes "--id" p.contract_id arguments
    × Passes "--source-account" p.source_identity arguments
    × Passes "--new_wasm_hash" p.validation.target.sha256 arguments
Gives p execute_migration arguments =
    Passes "--id" p.contract_id arguments × Passes "--source-account" p.source_identity arguments
Gives p verify_executable arguments = Passes "--id" p.contract_id arguments
Gives p verify_invariants arguments = Unit

-- A step calls the Stellar CLI on the plan's network; the last calls the program of the plan.
abbrev pub IsStepOf : UpgradePlan → PlanStepKind → (program : String) → List String → Type 0
IsStepOf p verify_invariants program arguments =
    (program ≡ p.invariant_check.program) × (arguments ≡ p.invariant_check.arguments)
IsStepOf p kind program arguments =
    (program ≡ "stellar") × Passes "--network" p.network arguments × Gives p kind arguments

steps_of_draft :
    (report : ValidationReport) (network contract_id source_identity : String)
    (inputs : PlanInputPaths) (migration : Option MigrationCall) (check : InvariantCheck)
    → let p =
        draft_plan report network contract_id source_identity inputs
          (record { migration = migration; invariant_check = check }) in
      All (λ (s : PlanStep). IsStepOf p s.kind s.program s.arguments) p.steps
unfolding draft_plan plan_steps
steps_of_draft report network contract_id source_identity inputs none check = ground arith
steps_of_draft report network contract_id source_identity inputs (some call) check = ground arith

-- What a plan says: its report is safe and of its network, its hashes and versions are those of the
-- report's artifacts, a rollback goes back to the source, it is for review exactly where the network
-- was asked, and its steps are on its network and contract.
pub record IsReviewable (p : UpgradePlan) : Type 0 where
  pub is_safe : p.validation.safe ≡ true
  pub on_network : p.validation.context.network_name ≡ some p.network
  pub source_hash : p.source_wasm_sha256 ≡ p.validation.source.sha256
  pub target_hash : p.target_wasm_sha256 ≡ p.validation.target.sha256
  pub rollback_hash : p.rollback_wasm_sha256 ≡ p.validation.source.sha256
  pub from_version : p.from_version ≡ version p.validation.source
  pub to_version : p.to_version ≡ version p.validation.target
  pub ready_iff :
      (p.status ≡ review_ready) ↔ (p.validation.context.protocol_source ≡ stellar_cli_network_info)
  pub steps : All (λ (s : PlanStep). IsStepOf p s.kind s.program s.arguments) p.steps

status_iff :
    (source : ProtocolSource)
    → ((if same ProtocolSource-discrete source stellar_cli_network_info
          then review_ready
          else offline_draft)
        ≡ review_ready)
      ↔ (source ≡ stellar_cli_network_info)
status_iff source = ground (arith, same_iff ProtocolSource-discrete source stellar_cli_network_info)

-- The plan has the report and the arguments that it is made from.
abbrev pub Carries :
    UpgradePlan
    → ValidationReport
    → (network contract_id source_identity : String) → PlanInputPaths
    → Type 0
Carries p report network contract_id source_identity inputs =
    (p.validation ≡ report)
    × (p.network ≡ network)
    × (p.contract_id ≡ contract_id)
    × (p.source_identity ≡ source_identity)
    × (p.inputs ≡ inputs)

draft_plan-Carries :
    (report : ValidationReport) (network contract_id source_identity : String)
    (inputs : PlanInputPaths) (operations : PlanOperations) (digest : String)
    → Carries
        (with_digest digest
          (draft_plan report network contract_id source_identity inputs operations))
        report
        network
        contract_id
        source_identity
        inputs
unfolding draft_plan
draft_plan-Carries report network contract_id source_identity inputs operations digest =
    (refl, refl, refl, refl, refl)

draft_plan-IsReviewable :
    (report : ValidationReport) (network contract_id source_identity : String)
    (inputs : PlanInputPaths) (operations : PlanOperations) (digest : String)
    → report.safe ≡ true
    → report.context.network_name ≡ some network
    → IsReviewable (
        with_digest digest
          (draft_plan report network contract_id source_identity inputs operations))
unfolding draft_plan
draft_plan-IsReviewable report network contract_id source_identity inputs operations digest safe
      on =
    record {
      is_safe = safe;
      on_network = on;
      source_hash = refl;
      target_hash = refl;
      rollback_hash = refl;
      from_version = refl;
      to_version = refl;
      ready_iff = status_iff report.context.protocol_source;
      steps =
          steps_of_draft report network contract_id source_identity inputs operations.migration
            operations.invariant_check;
    }

pub create_plan_with_paths-IsReviewable :
    (x : PlanExternal) (report : ValidationReport) (network contract_id source_identity : String)
    (inputs : PlanInputPaths) (operations : PlanOperations) (p : UpgradePlan)
    → create_plan_with_paths x report network contract_id source_identity inputs operations ≡ ok p
    → Carries p report network contract_id source_identity inputs × IsReviewable p
create_plan_with_paths-IsReviewable x report network contract_id source_identity inputs operations p
      made =
    let (ready, (encoded, digest, e, clean, d, q)) =
      (create_plan_with_paths-eq-ok_iff x report network contract_id source_identity inputs
          operations p).0
        made in
    subst (λ z. Carries z report network contract_id source_identity inputs × IsReviewable z)
      (sym q)
      (
        draft_plan-Carries report network contract_id source_identity inputs operations digest,
        draft_plan-IsReviewable report network contract_id source_identity inputs operations digest
            ready.is_safe ready.same_network,
      )
