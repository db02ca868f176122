-- ===== src/Cli/Commands/Live.antt =====
-- A plan that `plan` makes with live network evidence is one that `verify-plan` accepts online.
use soroban_upgrades.Base.{
  ℕ, String, if◌then◌else◌, false, ◌≡◌, refl, ap, sym, subst, ◌∙◌, ◌↔◌, Option, none, some, is_none,
}
use soroban_upgrades.Artifact.{Artifact}
use soroban_upgrades.Policy.{Policy, ValidationContext, stellar_cli_network_info}
use soroban_upgrades.Schema.{StorageSchema, SchemaHistory}
use soroban_upgrades.Report.{ValidationReport}
use soroban_upgrades.Validation.{validate_with_history}
use soroban_upgrades.Plan.{UpgradePlan, review_ready, PlanInputPaths, PlanOperations}
use soroban_upgrades.Plan.Create.{draft_plan, with_digest}
use soroban_upgrades.Plan.Create.Ready.{create_plan_with_paths-eq-ok_iff}
use soroban_upgrades.Plan.Create.Contents.{create_plan_with_paths-IsReviewable}
use soroban_upgrades.Plan.Verify.Exact.{KeepsDigestApart}
use soroban_upgrades.Cli.{Environment, resolve_validation_context, resolve_live_network}
use soroban_upgrades.Cli.Anyhow.{done}
use soroban_upgrades.Cli.Contexts.{source_of, resolve_validation_context_lem}
use soroban_upgrades.Cli.Commands.{
  PlanArguments, planned, make_sure_current_contract_matches, run_plan, run_verify_plan, load_plan,
}
use soroban_upgrades.Cli.Commands.Made.{IsMade, KeepsPaths, run_plan-eq-planned}
use soroban_upgrades.Cli.Commands.Planned.{made_parts, IsMade-IsVerified}
use soroban_upgrades.Cli.Commands.Verified.{IsLive, run_verify_plan_iff, contract_iff}

context_lem :
    (e : Environment) (source target : Artifact) (from to : Option StorageSchema) (policy : Policy)
    (context : ValidationContext) (history : Option SchemaHistory)
    → (validate_with_history e.plans.checks source target from to policy context history).context
      ≡ context
unfolding validate_with_history
context_lem e source target from to policy context history = refl

source_iff :
    (network : String) (version : Option ℕ)
    → (source_of (some network) version ≡ stellar_cli_network_info) ↔ (version ≡ none)
source_iff network none = (λ _. refl, λ _. refl)
source_iff network (some v) = (λ h. cc, λ h. cc)

live_context :
    (e : Environment) (network : String) (version : Option ℕ) (c : ValidationContext)
    → version ≡ none
    → resolve_validation_context e (some network) version ≡ done c
    → resolve_live_network e network ≡ done c
unfolding resolve_validation_context
live_context e network none c q h = h
live_context e network (some v) c q h = cc

drafted :
    (report : ValidationReport) (network contract_id source_identity : String)
    (inputs : PlanInputPaths) (operations : PlanOperations) (digest : String)
    → let p =
        with_digest digest
          (draft_plan report network contract_id source_identity inputs operations) in
      (p.network ≡ network) × (p.contract_id ≡ contract_id)
unfolding draft_plan
drafted report network contract_id source_identity inputs operations digest = (refl, refl)

module _ (e : Environment) (a : PlanArguments e.PathBuf) (p : UpgradePlan) (m : IsMade e a p) where
  -- The context of the plan is the one that was resolved.
  made_context : p.validation.context ≡ m.context
  made_context =
      let l = m.is_loaded in
      ap (λ (z : ValidationReport). z.context) ((made_parts e a p m).0 ∙ l.is_validated)
      ∙ context_lem e l.source l.target (some l.old_schema) (some l.new_schema) l.rules m.context
          (some l.history)

  -- A plan is for review exactly where no protocol version was asserted.
  made_status : (p.status ≡ review_ready) ↔ (a.protocol_version ≡ none)
  made_status =
      let (f, g) =
        (create_plan_with_paths-IsReviewable e.plans m.report a.network a.contract_id
          a.source_identity m.inputs m.operations p m.creates).1.ready_iff in
      let (r, passes) =
        resolve_validation_context_lem e (some a.network) a.protocol_version m.context m.resolves in
      let (h, k) = source_iff a.network a.protocol_version in
      let same : p.validation.context.protocol_source
          ≡ source_of (some a.network) a.protocol_version =
        ap (λ (c : ValidationContext). c.protocol_source) made_context ∙ r.source in
      (λ q. h (sym same ∙ f q), λ q. g (same ∙ k q))

  -- The plan is for the network and the contract of the command.
  made_for : (p.network ≡ a.network) × (p.contract_id ≡ a.contract_id)
  made_for =
      let (ready, (encoded, digest, s, clean, d, q)) =
        (create_plan_with_paths-eq-ok_iff e.plans m.report a.network a.contract_id a.source_identity
            m.inputs m.operations p).0
          m.creates in
      let (n, c) =
        drafted m.report a.network a.contract_id a.source_identity m.inputs m.operations digest in
      (ap (λ (z : UpgradePlan). z.network) q ∙ n, ap (λ (z : UpgradePlan). z.contract_id) q ∙ c)

  -- The test of the command on the deployed contract, on the plan's own fields.
  made_current :
      a.protocol_version ≡ none
      → make_sure_current_contract_matches e p.network p.contract_id p.source_wasm_sha256 ≡ done tt
  made_current live =
      let (n, c) = made_for in
      let hash = (made_parts e a p m).2.0 in
      let asked : make_sure_current_contract_matches e a.network a.contract_id
            m.report.source.sha256
          ≡ done tt =
        subst
          (λ (v : Option ℕ).
            (if is_none v
              then make_sure_current_contract_matches e a.network a.contract_id
                  m.report.source.sha256
              else done tt)
            ≡ done tt)
          live m.is_current in
      (λ i. make_sure_current_contract_matches e (n i) (c i) (hash i)) ∙ asked

  made_live : a.protocol_version ≡ none → IsLive e p
  made_live live =
      let (deployed, fetched, runs) = (contract_iff e p).iff.0 (made_current live) in
      record {
        is_ready = made_status.1 live;
        current = m.context;
        resolves =
            ap (resolve_live_network e) made_for.0
            ∙ live_context e a.network a.protocol_version m.context live m.resolves;
        network_id = ap (λ (c : ValidationContext). c.network_id) (sym made_context);
        network_passphrase =
            ap (λ (c : ValidationContext). c.network_passphrase) (sym made_context);
        protocol = ap (λ (c : ValidationContext). c.target_protocol_version) (sym made_context);
        deployed = deployed;
        fetches = fetched;
        runs_source = runs;
      }

-- Where a path is made again from its text, a plan that `plan` makes is ready for review exactly where
-- the command asserts no protocol version.
pub run_plan-status_iff :
    (e : Environment)
    → KeepsPaths e
    → (a : PlanArguments e.PathBuf) (p : UpgradePlan) → run_plan e a ≡ done (planned p)
    → (p.status ≡ review_ready) ↔ (a.protocol_version ≡ none)
run_plan-status_iff e keeps a p made = made_status e a p (run_plan-eq-planned e keeps a p made)

-- Where the serialiser keeps the digest apart and a path is made again from its text, a plan that
-- `plan` makes without an asserted protocol version is accepted by `verify-plan` with the live checks,
-- from any file in which it is read back as it was made, as long as the other files, the answers of
-- the Stellar CLI and the clock are unchanged.
pub run_verify_plan-run_plan_live :
    (e : Environment)
    → KeepsDigestApart e.plans
    → KeepsPaths e
    → (a : PlanArguments e.PathBuf) (p : UpgradePlan) → a.protocol_version ≡ none
    → run_plan e a ≡ done (planned p)
    → (path : e.PathBuf) → load_plan e path ≡ done p
    → run_verify_plan e path false ≡ done 0
run_verify_plan-run_plan_live e apart keeps a p live made path loads =
    let m = run_plan-eq-planned e keeps a p made in
    let verified = IsMade-IsVerified e a p m apart in
    (run_verify_plan_iff e path false).1 (
      p,
      loads,
      record {
        is_valid = verified.is_valid;
        has_artifacts = verified.has_artifacts;
        has_declarations = verified.has_declarations;
        is_live = λ _. made_live e a p m live;
      },
    )
