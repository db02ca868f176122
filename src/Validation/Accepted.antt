-- ===== src/Validation/Accepted.antt =====
-- What it takes for a validation to find an upgrade safe.
use soroban_upgrades.Base.{
  Bool, true, false, not, ◌&&◌, ◌≡◌, refl, ◌↔◌, Option, none, some, In, arith,
}
use soroban_upgrades.Artifact.{Artifact, has_function, version}
use soroban_upgrades.Policy.{Policy, ValidationContext}
use soroban_upgrades.Schema.{StorageEntry, StorageSchema, SchemaHistory}
use soroban_upgrades.Report.{error, warning}
use soroban_upgrades.Report.Passes.{
  PassesIff, append_passes, unless_passes, same_condition, if_passes, none_passes,
}
use soroban_upgrades.Checks.External.{External}
use soroban_upgrades.Checks.Network.Passes.{
  Supports, HasProvenance, check_policy-passes, check_environment_compatibility-passes,
  check_protocol_context-passes,
}
use soroban_upgrades.Checks.Capability.{reaches_update}
use soroban_upgrades.Checks.Capability.Passes.{
  IsSparseSound, check_cap_0086-passes, check_upgrade_host_capability-passes,
}
use soroban_upgrades.Checks.Interface.Passes.{
  KeepsAll, Increases, compare_interfaces-passes, check_versions-passes,
}
use soroban_upgrades.Checks.Storage.Last.{IsLast}
use soroban_upgrades.Checks.Storage.Rounds.{IsPlanned}
use soroban_upgrades.Checks.Storage.Passes.{
  IsSound, IsRunnable, validate_schema_manifests-passes, compare_storage_schemas-passes,
}
use soroban_upgrades.Checks.History.Passes.{IsContinued, validate_schema_history-passes}
use soroban_upgrades.Impact.{trace_public_impacts}
use soroban_upgrades.Validation.{
  validate_with_history, all_findings, upgrade_findings, constructor_findings, history_findings,
  storage_findings, impact_findings,
}
use soroban_upgrades.Validation.Verdict.{safe_lem}

-- Both artifacts have an `upgrade` export that reaches the host function, where the policy asks.
abbrev pub IsUpgradable : Artifact → Type 0
IsUpgradable artifact = (has_function artifact "upgrade" ≡ true) × (reaches_update artifact ≡ true)

upgradable_iff :
    (asked source_has source_reaches target_has target_reaches : Bool)
    → (((asked && not target_has) ≡ false)
        × ((asked ≡ true
              → ((true ≡ true → source_has ≡ true) × (source_has ≡ true → source_reaches ≡ true))
                × ((false ≡ true → target_has ≡ true)
                    × (target_has ≡ true → target_reaches ≡ true)))
            × (asked ≡ false → Unit {0})))
      ↔ (asked ≡ true
          → ((source_has ≡ true) × (source_reaches ≡ true))
            × ((target_has ≡ true) × (target_reaches ≡ true)))
upgradable_iff asked a b c d = ground arith

upgrade_findings-passes :
    (source target : Artifact) (policy : Policy)
    → PassesIff
        (upgrade_findings source target policy)
        (policy.require_upgrade_function ≡ true → IsUpgradable source × IsUpgradable target)
unfolding upgrade_findings error
upgrade_findings-passes source target policy =
    same_condition (upgradable_iff policy.require_upgrade_function _ _ _ _) (
      append_passes
        (unless_passes _ (policy.require_upgrade_function && not (has_function target "upgrade"))
          refl)
        (if_passes policy.require_upgrade_function
          (append_passes (check_upgrade_host_capability-passes source "source" "UPG003")
            (check_upgrade_host_capability-passes target "target" "UPG004"))
          none_passes))

constructor_findings-passes :
    (target : Artifact) (policy : Policy)
    → PassesIff
        (constructor_findings target policy)
        (policy.forbid_constructor ≡ true → has_function target "__constructor" ≡ false)
unfolding constructor_findings error warning
constructor_findings-passes target policy = record { iff = ground arith }

-- The history is continued, where there is one; there is one, where the policy asks.
abbrev pub HasHistory :
    External → (source target : Artifact) → Policy → Option SchemaHistory → Type 0
HasHistory x source target policy none = policy.require_schema_history ≡ false
HasHistory x source target policy (some history) = IsContinued x source target history

history_findings-passes :
    (x : External) (source target : Artifact) (policy : Policy) (history : Option SchemaHistory)
    → PassesIff
        (history_findings x source target policy history)
        (HasHistory x source target policy history)
unfolding history_findings error warning
history_findings-passes x source target policy none = record { iff = ground arith }
history_findings-passes x source target policy (some history) =
    validate_schema_history-passes x source target history

-- A pair of storage schemas whose changes are planned.
pub record IsMigrated (x : External) (source target : Artifact) (from to : StorageSchema)
    : Type 0 where
  pub source_sound : IsSound x source from
  pub target_sound : IsSound x target to
  pub runnable : (entry : StorageEntry) → In entry to.entries → IsRunnable target entry.migration
  pub planned : (old : StorageEntry) → IsLast old from.entries → IsPlanned from to old

-- Both schemas are there, or, where the policy allows it, neither.
abbrev pub HasSchemas :
    External → (source target : Artifact) → Policy → (from to : Option StorageSchema) → Type 0
HasSchemas x source target policy (some from) (some to) = IsMigrated x source target from to
HasSchemas x source target policy none none = policy.require_storage_schema ≡ false
HasSchemas x source target policy _ _ = ⊥

storage_findings-passes :
    (x : External) (source target : Artifact) (from to : Option StorageSchema) (policy : Policy)
    → PassesIff
        (storage_findings x source target from to policy)
        (HasSchemas x source target policy from to)
unfolding storage_findings error warning
storage_findings-passes x source target (some from) (some to) policy =
    same_condition
      (
        λ ((a, (b, c)), d). record {
          source_sound = a;
          target_sound = b;
          runnable = c;
          planned = d;
        },
        λ m. ((m.source_sound, (m.target_sound, m.runnable)), m.planned),
      )
      (append_passes (validate_schema_manifests-passes x source target from to)
        (compare_storage_schemas-passes from to))
storage_findings-passes x source target (some from) none policy = record { iff = ground arith }
storage_findings-passes x source target none (some to) policy = record { iff = ground arith }
storage_findings-passes x source target none none policy = record { iff = ground arith }

impact_findings-passes : (exceeded : Bool) → PassesIff (impact_findings exceeded) (exceeded ≡ false)
unfolding impact_findings error
impact_findings-passes exceeded = record { iff = ground arith }

-- The conditions of a safe upgrade, independent of the findings.
pub record IsAccepted (x : External) (source target : Artifact) (from to : Option StorageSchema)
    (policy : Policy) (context : ValidationContext) (history : Option SchemaHistory) : Type 0 where
  pub format : policy.format_version ≡ 1
  pub provenance : HasProvenance context.protocol_source context
  pub stable : target.env_pre_release ≡ 0
  pub supported : Supports context.target_protocol_version target.env_protocol_version
  pub sparse : IsSparseSound target context.target_protocol_version
  pub upgradable :
      policy.require_upgrade_function ≡ true → IsUpgradable source × IsUpgradable target
  pub no_constructor :
      policy.forbid_constructor ≡ true → has_function target "__constructor" ≡ false
  pub increases :
      policy.require_semver_increase ≡ true → Increases x (version source) (version target)
  pub functions :
      KeepsAll policy.deny_removed_functions policy.deny_changed_functions source.functions
        target.functions
  pub events :
      KeepsAll policy.deny_removed_events policy.deny_changed_events source.events target.events
  pub types :
      KeepsAll policy.deny_changed_user_types policy.deny_changed_user_types source.user_types
        target.user_types
  pub has_history : HasHistory x source target policy history
  pub has_schemas : HasSchemas x source target policy from to
  pub impacts_complete : (trace_public_impacts source target).1 ≡ false

module _ (x : External) (source target : Artifact) (from to : Option StorageSchema)
    (policy : Policy) (context : ValidationContext) (history : Option SchemaHistory) where
  conditions_iff :
      ((policy.format_version ≡ 1)
        × (HasProvenance context.protocol_source context
            × (((target.env_pre_release ≡ 0)
                  × Supports context.target_protocol_version target.env_protocol_version)
                × (IsSparseSound target context.target_protocol_version
                    × ((policy.require_upgrade_function ≡ true
                          → IsUpgradable source × IsUpgradable target)
                        × ((policy.forbid_constructor ≡ true
                              → has_function target "__constructor" ≡ false)
                            × ((policy.require_semver_increase ≡ true
                                  → Increases x (version source) (version target))
                                × ((KeepsAll policy.deny_removed_functions
                                        policy.deny_changed_functions source.functions
                                        target.functions
                                      × (KeepsAll policy.deny_removed_events
                                            policy.deny_changed_events source.events target.events
                                          × KeepsAll policy.deny_changed_user_types
                                              policy.deny_changed_user_types source.user_types
                                              target.user_types))
                                    × (HasHistory x source target policy history
                                        × (HasSchemas x source target policy from to
                                            × ((trace_public_impacts source target).1
                                                ≡ false)))))))))))
      ↔ IsAccepted x source target from to policy context history
  conditions_iff = (
    λ (a, (b, ((c, d), (e, (f, (g, (h, ((i, (j, k)), (l, (m, n)))))))))). record {
      format = a;
      provenance = b;
      stable = c;
      supported = d;
      sparse = e;
      upgradable = f;
      no_constructor = g;
      increases = h;
      functions = i;
      events = j;
      types = k;
      has_history = l;
      has_schemas = m;
      impacts_complete = n;
    },
    λ r. (
      r.format,
      (
        r.provenance,
        (
          (r.stable, r.supported),
          (
            r.sparse,
            (
              r.upgradable,
              (
                r.no_constructor,
                (
                  r.increases,
                  (
                    (r.functions, (r.events, r.types)),
                    (r.has_history, (r.has_schemas, r.impacts_complete)),
                  ),
                ),
              ),
            ),
          ),
        ),
      ),
    ),
  )

  all_findings-passes :
      PassesIff
        (all_findings x source target from to policy context history)
        (IsAccepted x source target from to policy context history)
  unfolding all_findings
  all_findings-passes = same_condition conditions_iff (
      append_passes (check_policy-passes policy) (
        append_passes (check_protocol_context-passes context) (
          append_passes (check_environment_compatibility-passes target context) (
            append_passes (check_cap_0086-passes target context) (
              append_passes (upgrade_findings-passes source target policy) (
                append_passes (constructor_findings-passes target policy) (
                  append_passes (check_versions-passes x source target policy) (
                    append_passes (compare_interfaces-passes source target policy context) (
                      append_passes (history_findings-passes x source target policy history) (
                        append_passes (storage_findings-passes x source target from to policy)
                          (impact_findings-passes (trace_public_impacts source target).1)))))))))))

  -- For all inputs, the report calls the upgrade safe exactly where the conditions of `IsAccepted`
  -- hold: of the policy, the network, the host functions, the entrypoints, the versions, the
  -- public interface, the schema history, the storage schemas and the limit of the impact
  -- analysis.
  pub safe_iff :
      ((validate_with_history x source target from to policy context history).safe ≡ true)
      ↔ IsAccepted x source target from to policy context history
  safe_iff =
      let (there, back) = all_findings-passes.iff in
      let e = safe_lem x source target from to policy context history in
      (λ h. there (ground arith), λ a. let b = back a in ground arith)
