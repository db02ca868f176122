-- ===== src/Samples/Commands.antt =====
-- Runs of the command line on the sample release.
use soroban_upgrades.Base.{
  false, ◌↔◌, arith, String, List, Bool, if◌then◌else◌, true, false, none, some, [], ◌∷◌, ◌≡◌, refl,
}
use soroban_upgrades.Base.BTreeMap
use soroban_upgrades.Artifact.Load.Unique.{HasNoRepeat}
use soroban_upgrades.Plan.Verify.Exact.{KeepsDigestApart}
use soroban_upgrades.Validation.{validate_with_history}
use soroban_upgrades.Cli.{
  read_bounded, resolve_validation_context, load_report, load_policy, path_text,
}
use soroban_upgrades.Cli.Reading.{read_bounded_iff}
use soroban_upgrades.Cli.Anyhow.{Outcome, done}
use soroban_upgrades.Cli.Arguments.{
  parse_named_arguments, parse_from, parse_argument, insert_argument, split_once, is_argument_name,
  is_name_char,
}
use soroban_upgrades.Base.Text.{is_ascii_alphanumeric}
use soroban_upgrades.Cli.Arguments.Exact.{parse_named_arguments_iff, ReadAs, names}
use soroban_upgrades.Cli.Commands.{
  exit_code, run_validate, PlanArguments, PlanAnswer, blocked, planned, run_plan, run_verify_plan,
  plan_of_safe_report, check_current_contract, input_paths, load_plan,
  make_sure_current_contract_matches,
}
use soroban_upgrades.Cli.Commands.Verified.{IsVerified, run_verify_plan_iff}
use soroban_upgrades.Cli.Commands.Made.{KeepsPaths}
use soroban_upgrades.Cli.Commands.Planned.{run_verify_plan-run_plan}
use soroban_upgrades.Cli.Commands.Live.{run_plan-status_iff, run_verify_plan-run_plan_live}
use soroban_upgrades.Cli.Contexts.{IsResolved, resolve_validation_context_lem}
use soroban_upgrades.Checks.Network.{check_protocol_context}
use soroban_upgrades.Cli.Commands.Loaded.{IsLoaded}
use soroban_upgrades.Cli.Commands.Validated.{exit_code-run_validate}
use soroban_upgrades.Policy.{ValidationContext}
use soroban_upgrades.Report.{ValidationReport, blocks}
use soroban_upgrades.Plan.{UpgradePlan, review_ready}
use soroban_upgrades.Samples.Release.{context, plan_external}
use soroban_upgrades.Samples.Core.{report, report_is_safe}
use soroban_upgrades.Samples.Plans.{plan, made}
use soroban_upgrades.Samples.Files.{
  environment, loads_source, loads_target, loads_old, loads_new, loads_history, loads_plan, fetches,
  resolves,
}

abbrev values : List String
values = "operator=alice" ∷ "note_1=a=b" ∷ []

parsed : parse_named_arguments values ≡ done (("note_1", "a=b") ∷ ("operator", "alice") ∷ [])
unfolding parse_named_arguments parse_from parse_argument insert_argument split_once
    is_argument_name is_name_char is_ascii_alphanumeric BTreeMap.insert BTreeMap.contains_key
    BTreeMap.get
parsed = refl

parse_named_arguments_iff_example :
    (pairs : List (String × String)) × ReadAs values pairs
    × HasNoRepeat (names pairs)
    × (BTreeMap.collect pairs ≡ ("note_1", "a=b") ∷ ("operator", "alice") ∷ [])
parse_named_arguments_iff_example =
    (parse_named_arguments_iff values (("note_1", "a=b") ∷ ("operator", "alice") ∷ [])).0 parsed

abbrev arguments : PlanArguments String
arguments = record {
  from = "source.wasm";
  to = "target.wasm";
  from_schema = "source.json";
  to_schema = "target.json";
  network = "testnet";
  contract_id = "CCONTRACT";
  source_identity = "alice";
  migration_entrypoint = some "migrate";
  migration_args = "operator=alice" ∷ [];
  invariant_program = "cargo";
  invariant_args = "test" ∷ [];
  policy = none;
  protocol_version = none;
  schema_history = "history.json";
}

migration : parse_named_arguments ("operator=alice" ∷ []) ≡ done (("operator", "alice") ∷ [])
unfolding parse_named_arguments parse_from parse_argument insert_argument split_once
    is_argument_name is_name_char is_ascii_alphanumeric BTreeMap.insert BTreeMap.contains_key
    BTreeMap.get
migration = refl

current : check_current_contract environment arguments report ≡ done tt
unfolding make_sure_current_contract_matches validate_with_history
current = rw fetches refl

safe_plan : plan_of_safe_report environment arguments report ≡ done (planned plan)
unfolding plan_of_safe_report input_paths path_text
safe_plan = rw current (rw migration (rw made refl))

chosen :
    (test : Bool)
    → test ≡ true
    → (answer : Outcome PlanAnswer) → answer ≡ done (planned plan)
    → (if test then answer else done blocked) ≡ done (planned plan)
chosen true e answer h = h
chosen false e answer h = cc

planned_here : run_plan environment arguments ≡ done (planned plan)
unfolding run_plan resolve_validation_context load_report load_policy
planned_here = rw resolves (
    rw loads_source (
      rw loads_target (
        rw loads_old (
          rw loads_new (
            rw loads_history (
              chosen report.safe report_is_safe (plan_of_safe_report environment arguments report)
                safe_plan))))))

keeps_digest : KeepsDigestApart plan_external
keeps_digest p digest = refl

keeps_paths : KeepsPaths environment
keeps_paths path text h = cc

run_verify_plan-run_plan_example : run_verify_plan environment "plan.json" true ≡ done 0
run_verify_plan-run_plan_example =
    run_verify_plan-run_plan environment keeps_digest keeps_paths arguments plan planned_here
      "plan.json" loads_plan

offline : run_verify_plan environment "plan.json" true ≡ done 0
offline =
    run_verify_plan-run_plan environment keeps_digest keeps_paths arguments plan planned_here
      "plan.json" loads_plan

run_verify_plan_iff_example :
    (p : UpgradePlan) × (load_plan environment "plan.json" ≡ done p) × IsVerified environment p true
run_verify_plan_iff_example = (run_verify_plan_iff environment "plan.json" true).0 offline

safe_code : (safe : Bool) → safe ≡ true → exit_code (done (if safe then 0 else 2)) ≡ 0
safe_code true h = refl
safe_code false h = cc

validated :
    exit_code (
      run_validate environment "source.wasm" "target.wasm" "source.json" "target.json" none
        (some "testnet")
        none
        "history.json")
    ≡ 0
unfolding run_validate resolve_validation_context load_report load_policy
validated = rw resolves (
    rw loads_source (
      rw loads_target
        (rw loads_old (rw loads_new (rw loads_history (safe_code report.safe report_is_safe))))))

exit_code-run_validate_example :
    (c : ValidationContext) × (resolve_validation_context environment (some "testnet") none
      ≡ done c)
    × ((r : ValidationReport) × IsLoaded environment "source.wasm" "target.wasm" "source.json"
          "target.json" none c "history.json" r
        × (r.safe ≡ true))
exit_code-run_validate_example =
    (exit_code-run_validate environment "source.wasm" "target.wasm" "source.json" "target.json" none
        (some "testnet") none "history.json").0
      validated

read_bounded_iff_example :
    read_bounded environment "history.json" 3 "JSON schema history" ≡ done (0 ∷ 0 ∷ 0 ∷ [])
read_bounded_iff_example =
    (read_bounded_iff environment "history.json" 3 "JSON schema history" (0 ∷ 0 ∷ 0 ∷ [])).1
      (refl, omega arith)

run_plan-status_iff_example : (plan.status ≡ review_ready) ↔ (arguments.protocol_version ≡ none)
run_plan-status_iff_example =
    run_plan-status_iff environment keeps_paths arguments plan planned_here

run_verify_plan-run_plan_live_example : run_verify_plan environment "plan.json" false ≡ done 0
run_verify_plan-run_plan_live_example =
    run_verify_plan-run_plan_live environment keeps_digest keeps_paths arguments plan refl
      planned_here "plan.json" loads_plan

resolved : resolve_validation_context environment (some "testnet") none ≡ done context
unfolding resolve_validation_context
resolved = resolves

resolve_validation_context_lem_example :
    IsResolved (some "testnet") none context × (blocks (check_protocol_context context) ≡ false)
resolve_validation_context_lem_example =
    resolve_validation_context_lem environment (some "testnet") none context resolved
