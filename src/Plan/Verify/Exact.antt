-- ===== src/Plan/Verify/Exact.antt =====
-- Which plans `verify_plan_digest` accepts.
use soroban_upgrades.Base.{
  String, Bool, true, false, not, ◌≡◌, refl, ap, sym, subst, ◌∙◌, ◌↔◌, Option, none, some, eq_iff,
  same, same_iff, arith, ◌==◌, if◌then◌else◌,
}
use soroban_upgrades.Base.Result.{ok, ◌>>=◌, >>-eq-ok, >>=-eq-ok}
use soroban_upgrades.Base.Guards.{OkIff, itself, ◌then◌, unless, bind}
use soroban_upgrades.Report.{ValidationReport, ValidationReport-discrete}
use soroban_upgrades.Plan.{
  UpgradePlan, UpgradePlan-discrete, PlanInputPaths, PlanOperations, MigrationCall, InvariantCheck,
  PlanStepKind-discrete,
}
use soroban_upgrades.Artifact.{Artifact}
use soroban_upgrades.Policy.{Policy, ValidationContext}
use soroban_upgrades.Schema.{StorageSchema, SchemaHistory}
use soroban_upgrades.Checks.External.{External}
use soroban_upgrades.Validation.{validate_with_history}
use soroban_upgrades.Plan.External.{PlanExternal}
use soroban_upgrades.Plan.Create.{
  create_plan_with_paths, calculate_plan_sha256, with_digest, without_digest, draft_plan,
  plan_steps,
}
use soroban_upgrades.Plan.Create.Ready.{create_plan_with_paths-eq-ok_iff}
use soroban_upgrades.Plan.Verify.{
  verify_plan_digest, validate_plan_structure, check_steps, recreate, revalidate, argument_after,
  position_of,
}

-- The serialiser writes the digest of a plan under the one key that the digest leaves out.
abbrev pub KeepsDigestApart : PlanExternal → Type 0
KeepsDigestApart x =
    (p : UpgradePlan) (digest : String)
    → (x.plan_to_value (with_digest digest p) >>= without_digest)
      ≡ (x.plan_to_value p >>= without_digest)

-- The digest of a plan does not depend on the digest that it carries.
calculate_plan_sha256-with_digest :
    (x : PlanExternal)
    → KeepsDigestApart x
    → (digest : String) (p : UpgradePlan)
    → calculate_plan_sha256 x (with_digest digest p) ≡ calculate_plan_sha256 x p
unfolding calculate_plan_sha256
calculate_plan_sha256-with_digest x apart digest p =
    ap (λ v. v >>= x.value_to_vec >>= λ bytes. ok (x.checks.sha256_hex bytes)) (apart p digest)

check_steps_of :
    (report : ValidationReport) (network contract_id source_identity : String)
    (inputs : PlanInputPaths) (migration : Option MigrationCall) (check : InvariantCheck)
    (digest : String)
    → check_steps (
        with_digest digest (
          draft_plan report network contract_id source_identity inputs
            (record { migration = migration; invariant_check = check })))
      ≡ ok tt
unfolding check_steps draft_plan plan_steps argument_after position_of same PlanStepKind-discrete
check_steps_of report network contract_id source_identity inputs none check digest =
    let e = (eq_iff inputs.target_wasm inputs.target_wasm).1 refl in rw e refl
check_steps_of report network contract_id source_identity inputs (some call) check digest =
    let e = (eq_iff inputs.target_wasm inputs.target_wasm).1 refl in rw e refl

-- The draft that a plan's own fields make.
abbrev own_draft : UpgradePlan → UpgradePlan
own_draft p =
    draft_plan p.validation p.network p.contract_id p.source_identity p.inputs
      (record { migration = p.migration; invariant_check = p.invariant_check })

recreate-eq-ok :
    (x : PlanExternal) (p expected : UpgradePlan)
    → recreate x p ≡ ok expected
    → (digest : String) × (calculate_plan_sha256 x (own_draft p) ≡ ok digest)
      × (expected ≡ with_digest digest (own_draft p))
unfolding recreate
recreate-eq-ok x p expected h =
    let operations : PlanOperations = record {
      migration = p.migration;
      invariant_check = p.invariant_check;
    } in
    let (r, (encoded, digest, e, clean, d, q)) =
      (create_plan_with_paths-eq-ok_iff x p.validation p.network p.contract_id p.source_identity
          p.inputs operations expected).0
        h in
    (digest, d, q)

format_of_draft : (p : UpgradePlan) → (own_draft p).format_version ≡ 3
unfolding draft_plan
format_of_draft p = refl

ok_injective : {A : Type 0} {a b : A} → ok a ≡ ok b → a ≡ b
ok_injective h = cc

not-false : (b : Bool) → not b ≡ false → b ≡ true
not-false true h = refl
not-false false h = cc

module _ (x : PlanExternal) (apart : KeepsDigestApart x) (p : UpgradePlan) where
  abbrev IsFresh : Type 0
  IsFresh = revalidate x.checks p.validation ≡ p.validation

  -- What the structure of a plan must satisfy.
  abbrev IsStructured : Type 0
  IsStructured =
      (((not (p.format_version == 3) ≡ false)
          × (not (same ValidationReport-discrete (revalidate x.checks p.validation) p.validation)
              ≡ false))
        × (check_steps p ≡ ok tt))
      × ((expected : UpgradePlan) × (recreate x p ≡ ok expected)
          × (not (same UpgradePlan-discrete (with_digest "" p) (with_digest "" expected)) ≡ false))

  structure_iff : OkIff (validate_plan_structure x p) IsStructured
  unfolding validate_plan_structure
  structure_iff =
      unless (not (p.format_version == 3)) _
      then unless
          (not (same ValidationReport-discrete (revalidate x.checks p.validation) p.validation)) _
      then itself (check_steps p)
      then bind (recreate x p) (λ expected.
        unless (not (same UpgradePlan-discrete (with_digest "" p) (with_digest "" expected))) _)

  report_iff :
      (not (same ValidationReport-discrete (revalidate x.checks p.validation) p.validation) ≡ false)
      ↔ (revalidate x.checks p.validation ≡ p.validation)
  report_iff =
      let (f, g) =
        same_iff ValidationReport-discrete (revalidate x.checks p.validation) p.validation in
      (λ h. f (not-false _ h), λ e. ap not (g e))

  plan_iff :
      (q : UpgradePlan)
      → (not (same UpgradePlan-discrete (with_digest "" p) (with_digest "" q)) ≡ false)
        ↔ (with_digest "" p ≡ with_digest "" q)
  plan_iff q =
      let (f, g) = same_iff UpgradePlan-discrete (with_digest "" p) (with_digest "" q) in
      (λ h. f (not-false _ h), λ e. ap not (g e))

  structure-ok : IsFresh → recreate x p ≡ ok p → validate_plan_structure x p ≡ ok tt
  structure-ok f r =
      let (digest, d, q) = recreate-eq-ok x p p r in
      let format : p.format_version ≡ 3 =
        ap (λ (z : UpgradePlan). z.format_version) q ∙ format_of_draft p in
      let steps : check_steps p ≡ ok tt =
        ap check_steps q
        ∙ check_steps_of p.validation p.network p.contract_id p.source_identity p.inputs p.migration
            p.invariant_check digest in
      structure_iff.iff.1 (((ground arith, report_iff.1 f), steps), (p, r, (plan_iff p).1 refl))

  own : recreate x p ≡ ok p → calculate_plan_sha256 x p ≡ ok p.plan_sha256
  own r =
      let (digest, d, q) = recreate-eq-ok x p p r in
      ap (calculate_plan_sha256 x) q
      ∙ (calculate_plan_sha256-with_digest x apart digest (own_draft p)
          ∙ (d ∙ ap (λ z. ok z) (sym (ap (λ (z : UpgradePlan). z.plan_sha256) q))))

  -- A plan that agrees with the one made again but for the digest, and has the right digest, is it.
  canonical :
      (expected : UpgradePlan) (digest digest' : String)
      → calculate_plan_sha256 x p ≡ ok digest
      → p.plan_sha256 ≡ digest
      → calculate_plan_sha256 x (own_draft p) ≡ ok digest'
      → expected ≡ with_digest digest' (own_draft p)
      → with_digest "" p ≡ with_digest "" expected
      → expected ≡ p
  canonical expected digest digest' d own d' q m =
      let draft = own_draft p in
      let bare : with_digest "" p ≡ with_digest "" draft = m ∙ ap (with_digest "") q in
      let same_digest : calculate_plan_sha256 x p ≡ calculate_plan_sha256 x draft =
        sym (calculate_plan_sha256-with_digest x apart "" p)
        ∙ (ap (calculate_plan_sha256 x) bare
            ∙ calculate_plan_sha256-with_digest x apart "" draft) in
      let e : p.plan_sha256 ≡ digest' = own ∙ ok_injective (sym d ∙ (same_digest ∙ d')) in
      q ∙ sym (ap (with_digest p.plan_sha256) bare ∙ ap (λ z. with_digest z draft) e)

  accepted_iff :
      (verify_plan_digest x p ≡ ok true)
      ↔ ((revalidate x.checks p.validation ≡ p.validation) × (recreate x p ≡ ok p))
  unfolding verify_plan_digest
  accepted_iff = (accepted, accepts)
    where
      accepted : verify_plan_digest x p ≡ ok true → IsFresh × (recreate x p ≡ ok p)
      accepted h =
          let (s, k) = (>>-eq-ok (validate_plan_structure x p) _ {b = true}).0 h in
          let (((a, b), c), (expected, r, m)) = structure_iff.iff.0 s in
          let (digest, d, answer) = >>=-eq-ok (calculate_plan_sha256 x p) _ k in
          let own_digest = (eq_iff p.plan_sha256 digest).0 (ok_injective answer) in
          let (digest', d', q) = recreate-eq-ok x p expected r in
          (
            report_iff.0 b,
            r
                ∙ ap (λ z. ok z)
                    (canonical expected digest digest' d own_digest d' q ((plan_iff expected).0 m)),
          )

      accepts : IsFresh × (recreate x p ≡ ok p) → verify_plan_digest x p ≡ ok true
      accepts (f, r) =
          let e = own r in
          let s = structure-ok f r in
          let t = (eq_iff p.plan_sha256 p.plan_sha256).1 refl in rw s (rw e (ap (λ z. ok z) t))

  -- Where the serialiser keeps the digest apart, the verification answers true exactly for a plan
  -- whose report is what the validation of the artifacts, schemas, policy, context and history in it
  -- gives, and that is, digest and steps included, what `create_plan_with_paths` makes from its own
  -- fields.
  pub verify_plan_digest_iff : (verify_plan_digest x p ≡ ok true) ↔ (
      (validate_with_history x.checks p.validation.source p.validation.target
          p.validation.source_schema p.validation.target_schema p.validation.policy
          p.validation.context p.validation.schema_history
        ≡ p.validation)
      × (create_plan_with_paths x p.validation p.network p.contract_id p.source_identity p.inputs
            (record { migration = p.migration; invariant_check = p.invariant_check })
          ≡ ok p))
  unfolding revalidate recreate
  verify_plan_digest_iff = accepted_iff

revalidate_lem :
    (x : External) (source target : Artifact) (from to : Option StorageSchema) (policy : Policy)
    (context : ValidationContext) (history : Option SchemaHistory)
    → revalidate x (validate_with_history x source target from to policy context history)
      ≡ validate_with_history x source target from to policy context history
unfolding revalidate validate_with_history
revalidate_lem x source target from to policy context history = refl

own_fields :
    (x : PlanExternal) (report : ValidationReport) (network contract_id source_identity : String)
    (inputs : PlanInputPaths) (operations : PlanOperations) (digest : String)
    → let p =
        with_digest digest
          (draft_plan report network contract_id source_identity inputs operations) in
      (recreate x p
        ≡ create_plan_with_paths x report network contract_id source_identity inputs operations)
      × (p.validation ≡ report)
unfolding recreate draft_plan
own_fields x report network contract_id source_identity inputs operations digest = (refl, refl)

-- Where the serialiser keeps the digest apart, a plan that `create_plan_with_paths` makes from the
-- report of a validation is verified: the answer is `true`.
pub verify_plan_digest-create_plan_with_paths :
    (x : PlanExternal)
    → KeepsDigestApart x
    → (source target : Artifact) (from to : Option StorageSchema) (policy : Policy)
      (context : ValidationContext) (history : Option SchemaHistory)
      (network contract_id source_identity : String) (inputs : PlanInputPaths)
      (operations : PlanOperations) (p : UpgradePlan)
    → create_plan_with_paths x
        (validate_with_history x.checks source target from to policy context history)
        network
        contract_id
        source_identity
        inputs
        operations
      ≡ ok p
    → verify_plan_digest x p ≡ ok true
verify_plan_digest-create_plan_with_paths x apart source target from to policy context history
      network contract_id source_identity inputs operations p h =
    let report = validate_with_history x.checks source target from to policy context history in
    let (ready, (encoded, digest, e, clean, d, q)) =
      (create_plan_with_paths-eq-ok_iff x report network contract_id source_identity inputs
          operations p).0
        h in
    let (again, embedded) =
      own_fields x report network contract_id source_identity inputs operations digest in
    (accepted_iff x apart p).1 (
      subst (λ (z : UpgradePlan). revalidate x.checks z.validation ≡ z.validation) (sym q)
          (subst (λ r. revalidate x.checks r ≡ r) (sym embedded)
            (revalidate_lem x.checks source target from to policy context history)),
      subst (λ z. recreate x z ≡ ok p) (sym q) (again ∙ h),
    )
