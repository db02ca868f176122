-- ===== src/Plan/Verify.antt =====
-- `verify_plan_digest` and `validate_plan_structure`: a plan is made again from what it embeds.
pub mod Exact
use soroban_upgrades.Base.{
  ℕ, zero, suc, ◌+◌, String, Bool, true, false, not, List, [], ◌∷◌, Option, none, some,
  if◌then◌else◌, str_eq, filter, length, get_elem?, same, ltb, ◌==◌, is_some,
}
use soroban_upgrades.Base.Result.{Error, Result, ok, err, ◌>>=◌, ◌>>◌, fail_if, ok_or, plan}
use soroban_upgrades.Base.Text.{◌<>◌, show}
use soroban_upgrades.Report.{ValidationReport, ValidationReport-discrete}
use soroban_upgrades.Validation.{validate_with_history}
use soroban_upgrades.Checks.External.{External}
use soroban_upgrades.Plan.{
  PlanStepKind, upload_target_wasm, execute_migration, PlanStepKind-discrete, PlanStep, UpgradePlan,
  UpgradePlan-discrete,
}
use soroban_upgrades.Plan.External.{PlanExternal}
use soroban_upgrades.Plan.Create.{create_plan_with_paths, calculate_plan_sha256, with_digest}

abbrev pub later : Option ℕ → Option ℕ
later none = none
later (some i) = some (suc i)

-- `arguments.iter().position(|argument| argument == flag)`
unfoldable pub position_of : String → List String → Option ℕ
position_of flag [] = none
position_of flag (a ∷ as') =
    let rest = position_of flag as' in if str_eq a flag then some 0 else later rest

abbrev pub next_argument : List String → Option ℕ → Option String
next_argument arguments none = none
next_argument arguments (some position) = get_elem? arguments (position + 1)

unfoldable pub argument_after : List String → (flag : String) → Option String
unfolding position_of
argument_after arguments flag = next_argument arguments (position_of flag arguments)

abbrev pub of_kind : PlanStepKind → PlanStep → Bool
of_kind kind step = same PlanStepKind-discrete step.kind kind

-- A fresh validation of the evidence that a report embeds.
unfoldable pub revalidate : External → ValidationReport → ValidationReport
revalidate x report =
    validate_with_history x report.source report.target report.source_schema report.target_schema
      report.policy report.context report.schema_history

-- The plan that is made from what a plan embeds.
unfoldable pub recreate : PlanExternal → UpgradePlan → Result UpgradePlan
recreate x p =
    create_plan_with_paths x p.validation p.network p.contract_id p.source_identity p.inputs
      (record { migration = p.migration; invariant_check = p.invariant_check })

-- `upload_steps[0]`, where there is exactly one.
abbrev pub only_step : List PlanStep → Result PlanStep
only_step (step ∷ []) = ok step
only_step _ = err (plan "plan must contain exactly one target-WASM upload step")

unfoldable pub check_steps : UpgradePlan → Result (Unit {0})
unfolding argument_after
check_steps p =
    let migration_steps = filter (of_kind execute_migration) p.steps in
    only_step (filter (of_kind upload_target_wasm) p.steps) >>= λ upload_step.
    ok_or (argument_after upload_step.arguments "--wasm")
      (plan "upload step has no `--wasm` argument")
    >>= λ target_wasm_path.
        fail_if (not (str_eq target_wasm_path p.inputs.target_wasm))
          (plan "upload step target does not match the plan input path")
        >> fail_if (ltb 1 (length migration_steps))
            (plan "plan contains more than one migration step")
        >> fail_if (not (length migration_steps == (if is_some p.migration then 1 else 0)))
            (plan "migration metadata and migration steps do not match")

unfoldable pub validate_plan_structure : PlanExternal → UpgradePlan → Result (Unit {0})
unfolding revalidate recreate check_steps
validate_plan_structure x p =
    fail_if (not (p.format_version == 3)) (
      plan (
        "unsupported plan format version "
        <> show p.format_version
        <> ". This build supports version 3"))
    >> fail_if
        (not (same ValidationReport-discrete (revalidate x.checks p.validation) p.validation))
        (plan "embedded validation report does not match a fresh validation of its evidence")
    >> check_steps p
    >> (recreate x p >>= λ expected.
        fail_if (not (same UpgradePlan-discrete (with_digest "" p) (with_digest "" expected)))
          (plan "plan fields or commands do not match the canonical validation-derived plan"))

unfoldable pub verify_plan_digest : PlanExternal → UpgradePlan → Result Bool
unfolding validate_plan_structure
verify_plan_digest x p =
    validate_plan_structure x p
    >> (calculate_plan_sha256 x p >>= λ digest. ok (str_eq p.plan_sha256 digest))
