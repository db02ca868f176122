-- ===== src/Plan/Create/Ready.antt =====
-- When `create_plan_with_paths` makes a plan, and which.
use soroban_upgrades.Base.{
  String, Bool, true, false, not, ◌&&◌, ◌||◌, ◌≡◌, refl, ◌↔◌, Option, none, some, List, any, arith,
  is_some, is_none, same, same_iff, eq_iff, subst, ap, Ordering,
}
use soroban_upgrades.Base.Result.{ok, ◌>>=◌, fail_if, >>-eq-ok, >>=-eq-ok, fail_if-eq-ok_iff}
use soroban_upgrades.Base.Guards.{OkIff, itself, ◌then◌, unless, meaning}
use soroban_upgrades.Base.Order.{Ord, string_ord, list_ord}
use soroban_upgrades.Base.BTreeSet.{BTreeSet, is_eq}
use soroban_upgrades.Policy.{unpinned, ProtocolSource-discrete}
use soroban_upgrades.Report.{ValidationReport, is_error}
use soroban_upgrades.Plan.{PlanOperations, PlanInputPaths, UpgradePlan, MigrationCall}
use soroban_upgrades.Plan.External.{PlanExternal}
use soroban_upgrades.Plan.Secret.{contains_stellar_private_key}
use soroban_upgrades.Plan.Guards.{
  validate_plan_string, validate_plan_input_paths, validate_invariant_check, same_names,
  validate_source_identity, validate_standard_upgrade_entrypoint,
}
use soroban_upgrades.Plan.Create.{
  create_plan_with_paths, check_plan, seal_plan, draft_plan, calculate_plan_sha256, with_digest,
  check_network, check_migration, check_migration_call, is_unpinned, declared_entrypoints,
  selected_entrypoint, storage_migration_required,
}

-- What a plan is made from: a safe report that is pinned to the network, with schemas and history,
-- and texts, calls and commands that the guards let through.
pub record IsReady (x : PlanExternal) (report : ValidationReport)
    (network contract_id source_identity : String) (inputs : PlanInputPaths)
    (operations : PlanOperations) : Type 0 where
  pub paths : validate_plan_input_paths x inputs ≡ ok tt
  pub network_text : validate_plan_string x "network" network 256 ≡ ok tt
  pub is_contract : x.is_contract_id contract_id ≡ true
  pub is_safe : report.safe ≡ true
  pub no_error : any is_error report.findings ≡ false
  pub has_protocol : is_some report.context.target_protocol_version ≡ true
  pub is_pinned : (report.context.protocol_source ≡ unpinned) → ⊥
  pub same_network : report.context.network_name ≡ some network
  pub schemas_checked : report.storage_schema_checked ≡ true
  pub history_checked : report.schema_history_checked ≡ true
  pub has_history_digest : is_some report.schema_history_sha256 ≡ true
  pub identity : validate_source_identity x source_identity ≡ ok tt
  pub migrates :
      storage_migration_required report ≡ true
      → (is_some operations.migration ≡ true)
        × (declared_entrypoints report.target_schema ≡ selected_entrypoint operations.migration)
  pub source_upgrades : validate_standard_upgrade_entrypoint x report.source ≡ ok tt
  pub target_upgrades : validate_standard_upgrade_entrypoint x report.target ≡ ok tt
  pub migration_call : check_migration_call x report operations.migration ≡ ok tt
  pub invariants : validate_invariant_check x operations.invariant_check ≡ ok tt

check_network_iff :
    (network : String) (evidence : Option String)
    → (check_network network evidence ≡ ok tt) ↔ (evidence ≡ some network)
check_network_iff network none = ground arith
check_network_iff network (some e) = ground (arith, eq_iff e network)

unpinned_iff :
    (report : ValidationReport)
    → (is_unpinned report ≡ false) ↔ (
        (is_some report.context.target_protocol_version ≡ true)
        × ((report.context.protocol_source ≡ unpinned) → ⊥))
unfolding is_unpinned
unpinned_iff report =
    ground (arith, same_iff ProtocolSource-discrete report.context.protocol_source unpinned)

abbrev set_ord : Ord (List String)
set_ord = list_ord

pub same_names_iff : (a b : BTreeSet String) → (same_names a b ≡ true) ↔ (a ≡ b)
same_names_iff a b = (
  λ h. set_ord.eq_of_cmp a b (is_eq_lem (set_ord.cmp a b) h),
  λ e. subst (λ c. is_eq (set_ord.cmp a c) ≡ true) e (ap is_eq (set_ord.cmp_refl a)),
)
  where
    is_eq_lem : (o : Ordering) → is_eq o ≡ true → o ≡ Ordering.eq
    is_eq_lem Ordering.eq h = refl
    is_eq_lem Ordering.lt h = cc
    is_eq_lem Ordering.gt h = cc

required_iff :
    {P : Type 0} (required selects same : Bool)
    → (same ≡ true) ↔ P
    → (migration : Option MigrationCall) → is_some migration ≡ selects
    → (((required && is_none migration) ≡ false) × ((required && not same) ≡ false))
      ↔ (required ≡ true → (selects ≡ true) × P)
required_iff required selects same p none e = ground arith
required_iff required selects same p (some call) e = ground arith

check_migration_iff :
    (report : ValidationReport) (migration : Option MigrationCall)
    → OkIff (check_migration report migration) (
        storage_migration_required report ≡ true
        → (is_some migration ≡ true)
          × (declared_entrypoints report.target_schema ≡ selected_entrypoint migration))
unfolding check_migration
check_migration_iff report migration =
    meaning
      (required_iff (storage_migration_required report) (is_some migration)
        (same_names (declared_entrypoints report.target_schema) (selected_entrypoint migration))
        (same_names_iff (declared_entrypoints report.target_schema) (selected_entrypoint migration))
        migration refl)
      (unless (storage_migration_required report && is_none migration) _
        then unless
            (storage_migration_required report
              && not (
                  same_names (declared_entrypoints report.target_schema)
                    (selected_entrypoint migration)))
            _)

check_plan_iff :
    (x : PlanExternal) (report : ValidationReport) (network contract_id source_identity : String)
    (inputs : PlanInputPaths) (operations : PlanOperations)
    → OkIff
        (check_plan x report network contract_id source_identity inputs operations)
        (IsReady x report network contract_id source_identity inputs operations)
unfolding check_plan
check_plan_iff x report network contract_id source_identity inputs operations =
    meaning
      (
        λ (((((((((((((a, b), c), d), (e, f)), g), h), i), j), k), l), m), n), o). record {
          paths = a;
          network_text = b;
          is_contract = ground arith;
          is_safe = ground arith;
          no_error = ground arith;
          has_protocol = e;
          is_pinned = f;
          same_network = g;
          schemas_checked = ground arith;
          history_checked = ground arith;
          has_history_digest = ground arith;
          identity = j;
          migrates = k;
          source_upgrades = l;
          target_upgrades = m;
          migration_call = n;
          invariants = o;
        },
        λ r.
            let c = r.is_contract in
            let s = r.is_safe in
            let t = r.no_error in
            let u = r.schemas_checked in
            let v = r.history_checked in
            let w = r.has_history_digest in
            (
              (
                (
                  (
                    (
                      (
                        (
                          (
                            (
                              (
                                (((r.paths, r.network_text), ground arith), ground arith),
                                (r.has_protocol, r.is_pinned),
                              ),
                              r.same_network,
                            ),
                            ground arith,
                          ),
                          ground arith,
                        ),
                        r.identity,
                      ),
                      r.migrates,
                    ),
                    r.source_upgrades,
                  ),
                  r.target_upgrades,
                ),
                r.migration_call,
              ),
              r.invariants,
            ),
      )
      (itself (validate_plan_input_paths x inputs)
        then itself (validate_plan_string x "network" network 256)
        then unless (not (x.is_contract_id contract_id)) _
        then unless (not report.safe || any is_error report.findings) _
        then meaning (unpinned_iff report) (unless (is_unpinned report) _)
        then record { iff = check_network_iff network report.context.network_name }
        then unless (not report.storage_schema_checked) _
        then unless (not report.schema_history_checked || is_none report.schema_history_sha256) _
        then itself (validate_source_identity x source_identity)
        then check_migration_iff report operations.migration
        then itself (validate_standard_upgrade_entrypoint x report.source)
        then itself (validate_standard_upgrade_entrypoint x report.target)
        then itself (check_migration_call x report operations.migration)
        then itself (validate_invariant_check x operations.invariant_check))

-- A draft has no private key in its serialised form, and a plan is the draft with its digest.
abbrev pub IsSealed : PlanExternal → (draft p : UpgradePlan) → Type 0
IsSealed x draft p =
    (encoded : String) × (digest : String) × (x.plan_to_text draft ≡ ok encoded)
    × (contains_stellar_private_key x encoded ≡ false)
    × (calculate_plan_sha256 x draft ≡ ok digest)
    × (p ≡ with_digest digest draft)

seal_plan-eq-ok :
    (x : PlanExternal) (draft p : UpgradePlan) → seal_plan x draft ≡ ok p → IsSealed x draft p
unfolding seal_plan
seal_plan-eq-ok x draft p h =
    let (encoded, e, rest) = >>=-eq-ok (x.plan_to_text draft) _ h in
    let (clean, sealed) =
      (>>-eq-ok (fail_if (contains_stellar_private_key x encoded) _)
          (calculate_plan_sha256 x draft >>= λ digest. ok (with_digest digest draft))).0
        rest in
    let (digest, d, q) = >>=-eq-ok (calculate_plan_sha256 x draft) _ sealed in
    (
      encoded,
      digest,
      e,
      (fail_if-eq-ok_iff (contains_stellar_private_key x encoded) _).0 clean,
      d,
      cc,
    )

eq-ok-seal_plan :
    (x : PlanExternal) (draft p : UpgradePlan) → IsSealed x draft p → seal_plan x draft ≡ ok p
unfolding seal_plan
eq-ok-seal_plan x draft p (encoded, digest, e, clean, d, q) = rw e (rw clean (rw d (rw q refl)))

-- For all arguments, a plan is made exactly where the report and the arguments are ready, and the
-- draft serialises to a text without a private key and has a digest; it is the draft with that digest.
pub create_plan_with_paths-eq-ok_iff :
    (x : PlanExternal) (report : ValidationReport) (network contract_id source_identity : String)
    (inputs : PlanInputPaths) (operations : PlanOperations) (p : UpgradePlan)
    → (create_plan_with_paths x report network contract_id source_identity inputs operations ≡ ok p)
      ↔ (IsReady x report network contract_id source_identity inputs operations
          × IsSealed x (draft_plan report network contract_id source_identity inputs operations) p)
unfolding create_plan_with_paths
create_plan_with_paths-eq-ok_iff x report network contract_id source_identity inputs operations p =
    let ready = check_plan_iff x report network contract_id source_identity inputs operations in
    let draft = draft_plan report network contract_id source_identity inputs operations in
    let (there, back) =
      >>-eq-ok (check_plan x report network contract_id source_identity inputs operations)
        (seal_plan x draft) {b = p} in
    (
      λ h. let (c, s) = there h in (ready.iff.0 c, seal_plan-eq-ok x draft p s),
      λ (r, s). back (ready.iff.1 r, eq-ok-seal_plan x draft p s),
    )
