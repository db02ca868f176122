-- ===== src/Cli/Commands/Planned.antt =====
-- A plan that `plan` makes is one that `verify-plan` accepts.
use soroban_upgrades.Base.{String, true, ◌≡◌, refl, ap, sym, subst, ◌∙◌, Option, some}
use soroban_upgrades.Base.Result.{ok}
use soroban_upgrades.Artifact.{Artifact}
use soroban_upgrades.Policy.{Policy, ValidationContext}
use soroban_upgrades.Schema.{StorageSchema, SchemaHistory}
use soroban_upgrades.Report.{ValidationReport}
use soroban_upgrades.Validation.{validate_with_history}
use soroban_upgrades.Plan.{UpgradePlan, PlanInputPaths, PlanOperations}
use soroban_upgrades.Plan.Create.{create_plan_with_paths, draft_plan, with_digest}
use soroban_upgrades.Plan.Create.Ready.{create_plan_with_paths-eq-ok_iff}
use soroban_upgrades.Plan.Verify.Exact.{KeepsDigestApart, verify_plan_digest-create_plan_with_paths}
use soroban_upgrades.Cli.{Environment, load_artifact, load_schema, load_policy, load_schema_history}
use soroban_upgrades.Cli.Anyhow.{done}
use soroban_upgrades.Cli.Commands.{
  PlanArguments, planned, run_plan, run_verify_plan, load_plan, optional_path,
}
use soroban_upgrades.Cli.Commands.Made.{IsMade, KeepsPaths, run_plan-eq-planned}
use soroban_upgrades.Cli.Commands.Verified.{
  HasArtifacts, HasDeclarations, IsVerified, run_verify_plan_iff,
}

module _ (e : Environment) where
  -- The parts of a plan that come from the report and the inputs.
  draft_parts :
      (report : ValidationReport) (network contract_id source_identity : String)
      (inputs : PlanInputPaths) (operations : PlanOperations) (digest : String)
      → let p =
          with_digest digest
            (draft_plan report network contract_id source_identity inputs operations) in
        (p.validation ≡ report)
        × (p.inputs ≡ inputs)
        × ((p.source_wasm_sha256 ≡ report.source.sha256)
            × (p.target_wasm_sha256 ≡ report.target.sha256))
  unfolding draft_plan
  draft_parts report network contract_id source_identity inputs operations digest =
      (refl, refl, (refl, refl))

  -- What a validation keeps of its evidence.
  validation_parts :
      (source target : Artifact) (from to : Option StorageSchema) (policy : Policy)
      (context : ValidationContext) (history : Option SchemaHistory)
      → let r = validate_with_history e.plans.checks source target from to policy context history in
        ((r.source ≡ source) × (r.target ≡ target))
        × ((r.source_schema ≡ from)
            × (r.target_schema ≡ to)
            × ((r.policy ≡ policy) × (r.schema_history ≡ history)))
  unfolding validate_with_history
  validation_parts source target from to policy context history =
      ((refl, refl), (refl, refl, (refl, refl)))

  module _ (a : PlanArguments e.PathBuf) (p : UpgradePlan) (m : IsMade e a p) where
    -- The parts of the plan, against the report and the inputs that it is made from.
    pub made_parts :
        (p.validation ≡ m.report)
        × (p.inputs ≡ m.inputs)
        × ((p.source_wasm_sha256 ≡ m.report.source.sha256)
            × (p.target_wasm_sha256 ≡ m.report.target.sha256))
    made_parts =
        let (ready, (encoded, digest, s, clean, d, q)) =
          (create_plan_with_paths-eq-ok_iff e.plans m.report a.network a.contract_id
              a.source_identity m.inputs m.operations p).0
            m.creates in
        let (v, i, (h, k)) =
          draft_parts m.report a.network a.contract_id a.source_identity m.inputs m.operations
            digest in
        (
          ap (λ (z : UpgradePlan). z.validation) q ∙ v,
          ap (λ (z : UpgradePlan). z.inputs) q ∙ i,
          (
            ap (λ (z : UpgradePlan). z.source_wasm_sha256) q ∙ h,
            ap (λ (z : UpgradePlan). z.target_wasm_sha256) q ∙ k,
          ),
        )

    pub IsMade-HasArtifacts : HasArtifacts e p
    IsMade-HasArtifacts =
        let l = m.is_loaded in
        let (v, inputs, (h, k)) = made_parts in
        let w = v ∙ l.is_validated in
        let ((source, target), rest) =
          validation_parts l.source l.target (some l.old_schema) (some l.new_schema) l.rules
            m.context (some l.history) in
        record {
          source =
              ap (λ (z : PlanInputPaths). load_artifact e (e.new_path z.source_wasm)) inputs
              ∙ (ap (load_artifact e) m.names_inputs.source
                  ∙ (l.loads_source
                      ∙ ap done (sym (ap (λ (z : ValidationReport). z.source) w ∙ source))));
          source_sha256 = ap (λ (z : ValidationReport). z.source.sha256) v ∙ sym h;
          target =
              ap (λ (z : PlanInputPaths). load_artifact e (e.new_path z.target_wasm)) inputs
              ∙ (ap (load_artifact e) m.names_inputs.target
                  ∙ (l.loads_target
                      ∙ ap done (sym (ap (λ (z : ValidationReport). z.target) w ∙ target))));
          target_sha256 = ap (λ (z : ValidationReport). z.target.sha256) v ∙ sym k;
        }

    pub IsMade-HasDeclarations : HasDeclarations e p
    IsMade-HasDeclarations =
        let l = m.is_loaded in
        let (v, inputs, hashes) = made_parts in
        let w = v ∙ l.is_validated in
        let (artifacts, (from, to, (policy, history))) =
          validation_parts l.source l.target (some l.old_schema) (some l.new_schema) l.rules
            m.context (some l.history) in
        record {
          source_schema = l.old_schema;
          has_source_schema = ap (λ (z : ValidationReport). z.source_schema) w ∙ from;
          loads_source_schema =
              ap (λ (z : PlanInputPaths). load_schema e (e.new_path z.source_schema)) inputs
              ∙ (ap (load_schema e) m.names_inputs.source_schema ∙ l.loads_old);
          target_schema = l.new_schema;
          has_target_schema = ap (λ (z : ValidationReport). z.target_schema) w ∙ to;
          loads_target_schema =
              ap (λ (z : PlanInputPaths). load_schema e (e.new_path z.target_schema)) inputs
              ∙ (ap (load_schema e) m.names_inputs.target_schema ∙ l.loads_new);
          history = l.history;
          has_history = ap (λ (z : ValidationReport). z.schema_history) w ∙ history;
          loads_history =
              ap
                (λ (z : PlanInputPaths). load_schema_history e (some (e.new_path z.schema_history)))
                inputs
              ∙ (ap (λ path. load_schema_history e (some path)) m.names_inputs.history
                  ∙ l.loads_history);
          policy =
              ap (λ (z : PlanInputPaths). load_policy e (optional_path e z.policy)) inputs
              ∙ (ap (load_policy e) m.names_inputs.policy
                  ∙ (l.loads_rules
                      ∙ ap done (sym (ap (λ (z : ValidationReport). z.policy) w ∙ policy))));
        }

    pub IsMade-IsVerified : KeepsDigestApart e.plans → IsVerified e p true
    IsMade-IsVerified apart =
        let l = m.is_loaded in
        record {
          is_valid =
              verify_plan_digest-create_plan_with_paths e.plans apart l.source l.target
                (some l.old_schema) (some l.new_schema) l.rules m.context (some l.history) a.network
                a.contract_id a.source_identity m.inputs m.operations p
                (subst
                  (λ r.
                    create_plan_with_paths e.plans r a.network a.contract_id a.source_identity
                      m.inputs m.operations
                    ≡ ok p)
                  l.is_validated m.creates);
          has_artifacts = IsMade-HasArtifacts;
          has_declarations = IsMade-HasDeclarations;
          is_live = λ h. cc;
        }

-- Where the serialiser keeps the digest apart and a path is made again from its text, a plan that
-- `plan` makes is accepted by `verify-plan --offline`, from any file in which it is read back as it
-- was made, as long as the other files are unchanged.
pub run_verify_plan-run_plan :
    (e : Environment)
    → KeepsDigestApart e.plans
    → KeepsPaths e
    → (a : PlanArguments e.PathBuf) (p : UpgradePlan) → run_plan e a ≡ done (planned p)
    → (path : e.PathBuf) → load_plan e path ≡ done p
    → run_verify_plan e path true ≡ done 0
run_verify_plan-run_plan e apart keeps a p made path loads =
    (run_verify_plan_iff e path true).1
      (p, loads, IsMade-IsVerified e a p (run_plan-eq-planned e keeps a p made) apart)
