-- ===== src/Validation.antt =====
-- `validate`, `validate_with_context`, `validate_with_history` and `build_evidence_coverage` of
-- crates/soroban-upgrades-core/src/lib.rs: the checks put together into a report.
pub mod Evidence
pub mod Verdict
pub mod Accepted
use soroban_upgrades.Base.{
  ℕ, String, Bool, true, false, not, ◌&&◌, List, [], ◌∷◌, ◌++◌, Option, none, some, if◌then◌else◌,
  any, is_some,
}
use soroban_upgrades.Base.Sort
use soroban_upgrades.Artifact.{Artifact, has_function}
use soroban_upgrades.Policy.{Policy, ValidationContext, default_context}
use soroban_upgrades.Schema.{StorageSchema, SchemaHistory}
use soroban_upgrades.Report.{Finding, ValidationReport, error, warning, finding_cmp, is_error}
use soroban_upgrades.Checks.External.{External, canonical_sha256}
use soroban_upgrades.Checks.Network.{
  check_policy, check_environment_compatibility, check_protocol_context,
}
use soroban_upgrades.Checks.Capability.{check_cap_0086, check_upgrade_host_capability}
use soroban_upgrades.Checks.Interface.{check_versions, compare_interfaces}
use soroban_upgrades.Checks.Storage.{validate_schema_manifests, compare_storage_schemas}
use soroban_upgrades.Checks.History.{validate_schema_history}
use soroban_upgrades.Impact.{trace_public_impacts}
use Evidence.{build_evidence_coverage}
use mathlib.Core.Option

-- The tests on the upgrade entrypoint.
unfoldable pub upgrade_findings : (source target : Artifact) → Policy → List Finding
upgrade_findings source target policy =
    (if policy.require_upgrade_function && not (has_function target "upgrade")
      then error "UPG001" "Target removes the upgrade entrypoint"
          "The target contract specification has no `upgrade` function. A successful deployment makes subsequent upgrades unavailable without another authorized host update."
          "Retain an authorized `upgrade` entrypoint or explicitly approve immutability as a terminal release."
        ∷ []
      else [])
    ++ (if policy.require_upgrade_function
        then check_upgrade_host_capability source "source" "UPG003"
          ++ check_upgrade_host_capability target "target" "UPG004"
        else [])

unfoldable pub constructor_findings : (target : Artifact) → Policy → List Finding
constructor_findings target policy =
    if has_function target "__constructor"
    then (if policy.forbid_constructor
        then error "UPG002" "Target contains a constructor"
            "Soroban does not invoke `__constructor` when WASM is replaced. Any state initialization placed there will be skipped during this upgrade."
            "Move upgrade-time initialization to an idempotent migration entrypoint and test it against the pre-upgrade state."
        else warning "UPG002" "Target constructor will not run during upgrade"
            "The target can validly retain a constructor for fresh deployments, but Soroban will not invoke it when replacing WASM."
            "Confirm that upgrade-time initialization is handled by an idempotent migration and that no upgrade invariant depends on the constructor.")
      ∷ []
    else []

unfoldable pub impact_findings : (impact_limit_exceeded : Bool) → List Finding
impact_findings impact_limit_exceeded =
    if impact_limit_exceeded
    then error "RES001" "Public type-impact analysis exceeded its limit"
        "The type graph produced too many paths or too much traversal work for a complete result."
        "Reduce the public type graph or split the contract interface before approval."
      ∷ []
    else []

module _ (x : External) where
  unfoldable pub history_findings :
      (source target : Artifact) → Policy → Option SchemaHistory → List Finding
  history_findings source target policy (some history) =
      validate_schema_history x source target history
  history_findings source target policy none =
      (if policy.require_schema_history
        then error "HIS000" "Historical field lifecycle was not checked"
            "A two-artifact comparison cannot detect reuse of a field name from an older release."
            "Commit a complete schema-history manifest and pass `--schema-history`."
        else warning "HIS000" "Historical field lifecycle was not checked"
            "A two-artifact comparison cannot detect reuse of a field name that existed in an older release or prove that archived state no longer contains retired layouts."
            "Commit a complete schema-history manifest and pass `--schema-history`.")
      ∷ []

  unfoldable pub storage_findings :
      (source target : Artifact)
      → (source_schema target_schema : Option StorageSchema) → Policy
      → List Finding
  storage_findings source target (some from) (some to) policy =
      validate_schema_manifests x source target from to ++ compare_storage_schemas from to
  storage_findings source target none none policy =
      (if policy.require_storage_schema
        then error "STO000" "Storage compatibility was not checked"
            "Soroban WASM does not contain a complete description of all storage keys and value layouts."
            "Commit complete source and target storage schemas and pass both files."
        else warning "STO000" "Storage compatibility was not checked"
            "Soroban WASM does not contain a complete description of all storage keys and value layouts."
            "Commit complete source and target storage schemas and pass both files.")
      ∷ []
  storage_findings source target _ _ policy =
      error "STO004" "Storage schema pair is incomplete"
        "Only one side of the upgrade supplied a storage schema, so compatibility cannot be evaluated."
        "Supply both `--from-schema` and `--to-schema`."
      ∷ []

  -- The vector of findings before it is sorted: what each check appends, in the order of the calls.
  unfoldable pub all_findings :
      (source target : Artifact)
      → (source_schema target_schema : Option StorageSchema) → Policy
      → ValidationContext
      → Option SchemaHistory
      → List Finding
  unfolding upgrade_findings constructor_findings history_findings storage_findings impact_findings
  all_findings source target source_schema target_schema policy context schema_history =
      check_policy policy
      ++ (check_protocol_context context
          ++ (check_environment_compatibility target context
              ++ (check_cap_0086 target context
                  ++ (upgrade_findings source target policy
                      ++ (constructor_findings target policy
                          ++ (check_versions x source target policy
                              ++ (compare_interfaces source target policy context
                                  ++ (history_findings source target policy schema_history
                                      ++ (storage_findings source target source_schema target_schema
                                            policy
                                          ++ impact_findings
                                              (trace_public_impacts source target).1)))))))))

  unfoldable pub validate_with_history :
      (source target : Artifact)
      → (source_schema target_schema : Option StorageSchema) → Policy
      → ValidationContext
      → Option SchemaHistory
      → ValidationReport
  unfolding all_findings
  validate_with_history source target source_schema target_schema policy context schema_history =
      let findings =
        Sort.sort_by finding_cmp
          (all_findings source target source_schema target_schema policy context schema_history) in
      let both_schemas = is_some source_schema && is_some target_schema in
      record {
        format_version = 1;
        tool_version = x.tool_version;
        safe = not (any is_error findings);
        policy = policy;
        context = context;
        source = source;
        target = target;
        findings = findings;
        public_impacts = (trace_public_impacts source target).0;
        evidence = build_evidence_coverage context both_schemas (is_some schema_history);
        storage_schema_checked = both_schemas;
        schema_history_checked = is_some schema_history;
        policy_sha256 = canonical_sha256 x x.policy_to_vec policy;
        source_schema_sha256 = Option.map (canonical_sha256 x x.schema_to_vec) source_schema;
        target_schema_sha256 = Option.map (canonical_sha256 x x.schema_to_vec) target_schema;
        schema_history_sha256 = Option.map (λ (h : SchemaHistory). h.source_sha256) schema_history;
        source_schema = source_schema;
        target_schema = target_schema;
        schema_history = schema_history;
      }

  unfoldable pub validate_with_context :
      (source target : Artifact)
      → (source_schema target_schema : Option StorageSchema) → Policy
      → ValidationContext
      → ValidationReport
  validate_with_context source target source_schema target_schema policy context =
      validate_with_history source target source_schema target_schema policy context none

  unfoldable pub validate :
      (source target : Artifact)
      → (source_schema target_schema : Option StorageSchema) → Policy
      → ValidationReport
  validate source target source_schema target_schema policy =
      validate_with_history source target source_schema target_schema policy default_context none
