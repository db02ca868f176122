-- ===== src/Cli/Commands/Made.antt =====
-- What a plan of the command `plan` is made from.
use soroban_upgrades.Base.{
  String, Bool, true, false, ◌≡◌, ap, sym, subst, ◌∙◌, Option, none, some, if◌then◌else◌,
}
use soroban_upgrades.Base.Result.{ok}
use soroban_upgrades.Policy.{ValidationContext}
use soroban_upgrades.Report.{ValidationReport}
use soroban_upgrades.Plan.{UpgradePlan, PlanInputPaths, PlanOperations}
use soroban_upgrades.Plan.Create.{create_plan_with_paths}
use soroban_upgrades.Cli.{Environment, load_report, path_text, resolve_validation_context}
use soroban_upgrades.Cli.Anyhow.{
  Outcome, done, some_or_iff, from_core, from_core_iff, >>=_iff, done_inj,
}
use soroban_upgrades.Cli.Commands.{
  PlanArguments, PlanAnswer, blocked, planned, input_paths, migration_of, plan_of_safe_report,
  check_current_contract, run_plan, optional_path, optional_text,
}
use soroban_upgrades.Cli.Commands.Loaded.{IsLoaded, load_report-eq-done}

planned_inj : {p q : UpgradePlan} → planned p ≡ planned q → p ≡ q
planned_inj h = cc

not_blocked :
    (b : Bool) (answer : Outcome PlanAnswer) (p : UpgradePlan)
    → (if b then answer else done blocked) ≡ done (planned p)
    → answer ≡ done (planned p)
not_blocked true answer p h = h
not_blocked false answer p h = cc

module _ (e : Environment) where
  -- A path is made again from its text.
  abbrev pub KeepsPaths : Type 0
  KeepsPaths =
      (path : e.PathBuf) (text : String) → e.to_str path ≡ some text → e.new_path text ≡ path

  path_text-eq-done :
      KeepsPaths
      → (path : e.PathBuf) (text : String) → path_text e path ≡ done text
      → e.new_path text ≡ path
  unfolding path_text
  path_text-eq-done keeps path text h = keeps path text ((some_or_iff (e.to_str path) _ text).0 h)

  -- The texts of a plan's inputs name the paths that they are made from.
  pub record NamesInputs (a : PlanArguments e.PathBuf) (inputs : PlanInputPaths) : Type 0 where
    pub source : e.new_path inputs.source_wasm ≡ a.from
    pub target : e.new_path inputs.target_wasm ≡ a.to
    pub source_schema : e.new_path inputs.source_schema ≡ a.from_schema
    pub target_schema : e.new_path inputs.target_schema ≡ a.to_schema
    pub history : e.new_path inputs.schema_history ≡ a.schema_history
    pub policy : optional_path e inputs.policy ≡ a.policy

  optional_text-eq-done :
      KeepsPaths
      → (o : Option e.PathBuf) (t : Option String) → optional_text e o ≡ done t
      → optional_path e t ≡ o
  optional_text-eq-done keeps none t h = ap (optional_path e) (sym (done_inj h))
  optional_text-eq-done keeps (some path) t h =
      let (text, l, q) = (>>=_iff (path_text e path) (λ text. done (some text)) t).0 h in
      ap (optional_path e) (sym (done_inj q)) ∙ ap some (path_text-eq-done keeps path text l)

  input_paths-eq-done :
      KeepsPaths
      → (a : PlanArguments e.PathBuf) (inputs : PlanInputPaths) → input_paths e a ≡ done inputs
      → NamesInputs a inputs
  unfolding input_paths
  input_paths-eq-done keeps a inputs h =
      let (t0, l0, h0) = (>>=_iff (path_text e a.from) _ inputs).0 h in
      let (t1, l1, h1) = (>>=_iff (path_text e a.to) _ inputs).0 h0 in
      let (t2, l2, h2) = (>>=_iff (path_text e a.from_schema) _ inputs).0 h1 in
      let (t3, l3, h3) = (>>=_iff (path_text e a.to_schema) _ inputs).0 h2 in
      let (t4, l4, h4) = (>>=_iff (path_text e a.schema_history) _ inputs).0 h3 in
      let (t5, l5, h5) = (>>=_iff (optional_text e a.policy) _ inputs).0 h4 in
      subst (NamesInputs a) (done_inj h5) (record {
        source = path_text-eq-done keeps a.from t0 l0;
        target = path_text-eq-done keeps a.to t1 l1;
        source_schema = path_text-eq-done keeps a.from_schema t2 l2;
        target_schema = path_text-eq-done keeps a.to_schema t3 l3;
        history = path_text-eq-done keeps a.schema_history t4 l4;
        policy = optional_text-eq-done keeps a.policy t5 l5;
      })

  -- What a plan of the command is made from.
  pub record IsMade (a : PlanArguments e.PathBuf) (p : UpgradePlan) : Type 0 where
    pub context : ValidationContext
    pub report : ValidationReport
    pub is_loaded :
        IsLoaded e a.from a.to a.from_schema a.to_schema a.policy context a.schema_history report
    pub resolves : resolve_validation_context e (some a.network) a.protocol_version ≡ done context
    pub is_current : check_current_contract e a report ≡ done tt
    pub inputs : PlanInputPaths
    pub names_inputs : NamesInputs a inputs
    pub operations : PlanOperations
    pub creates :
        create_plan_with_paths e.plans report a.network a.contract_id a.source_identity inputs
          operations
        ≡ ok p

  plan_of_safe_report-eq-planned :
      (keeps : KeepsPaths) (a : PlanArguments e.PathBuf) (report : ValidationReport)
      (p : UpgradePlan)
      → plan_of_safe_report e a report ≡ done (planned p)
      → (check_current_contract e a report ≡ done tt)
        × ((inputs : PlanInputPaths) × NamesInputs a inputs
            × ((operations : PlanOperations) × (create_plan_with_paths e.plans report a.network
                    a.contract_id a.source_identity inputs operations
                  ≡ ok p)))
  unfolding plan_of_safe_report
  plan_of_safe_report-eq-planned keeps a report p h =
      let (u, l0, h0) = (>>=_iff (check_current_contract e a report) _ (planned p)).0 h in
      let (inputs, l1, h1) = (>>=_iff (input_paths e a) _ (planned p)).0 h0 in
      let (migration, l2, h2) =
        (>>=_iff (migration_of e a.migration_entrypoint a.migration_args) _ (planned p)).0 h1 in
      let operations : PlanOperations = record {
        migration = migration;
        invariant_check = record { program = a.invariant_program; arguments = a.invariant_args };
      } in
      let created =
        create_plan_with_paths e.plans report a.network a.contract_id a.source_identity inputs
          operations in
      let (q, l3, h3) = (>>=_iff (from_core created) _ (planned p)).0 h2 in
      (
        l0,
        (
          inputs,
          input_paths-eq-done keeps a inputs l1,
          (operations, (from_core_iff created p).0 (l3 ∙ ap done (planned_inj (done_inj h3)))),
        ),
      )

  pub run_plan-eq-planned :
      KeepsPaths
      → (a : PlanArguments e.PathBuf) (p : UpgradePlan) → run_plan e a ≡ done (planned p)
      → IsMade a p
  unfolding run_plan
  run_plan-eq-planned keeps a p h =
      let (context, l0, h0) =
        (>>=_iff (resolve_validation_context e (some a.network) a.protocol_version) _ (planned p)).0
          h in
      let (report, l1, h1) =
        (>>=_iff
            (load_report e a.from a.to (some a.from_schema) (some a.to_schema) a.policy context
              (some a.schema_history))
            _ (planned p)).0
          h0 in
      let (current, (inputs, named, (operations, c))) =
        plan_of_safe_report-eq-planned keeps a report p
          (not_blocked report.safe (plan_of_safe_report e a report) p h1) in
      record {
        context = context;
        report = report;
        is_loaded =
            load_report-eq-done e a.from a.to a.from_schema a.to_schema a.policy context
              a.schema_history report l1;
        resolves = l0;
        is_current = current;
        inputs = inputs;
        names_inputs = named;
        operations = operations;
        creates = c;
      }
