-- ===== src/Samples/Core.antt =====
-- The validation at the sample release.
use soroban_upgrades.Base.{◌≡◌, refl, true, some, [], ◌∷◌, map}
use soroban_upgrades.Base.{same}
use soroban_upgrades.Base.Sort
use soroban_upgrades.Base.BTreeSet
use soroban_upgrades.Base.BTreeMap
use soroban_upgrades.Base.Text.{is_blank, is_control, is_whitespace}
use soroban_upgrades.Json.Value.{Value-discrete, pointer, get, as_array, as_str}
use soroban_upgrades.Artifact.{
  has_function, version, uses_cap_0086_sparse_read, uses_cap_0086_sparse_write,
}
use soroban_upgrades.Schema.{Durability-discrete}
use soroban_upgrades.Checks.Network.{
  check_policy, check_protocol_context, check_environment_compatibility,
}
use soroban_upgrades.Checks.Capability.{
  check_cap_0086, check_upgrade_host_capability, reaches_update,
}
use soroban_upgrades.Checks.Interface.{compare_interfaces, check_versions, struct_fields}
use soroban_upgrades.Checks.Storage.{validate_schema_manifests, compare_storage_schemas}
use soroban_upgrades.Checks.History.{
  validate_schema_history, artifact_struct_fields, field_record, is_reserved,
}
use soroban_upgrades.Impact.{trace_public_impacts}
use soroban_upgrades.Policy.{default_policy}
use soroban_upgrades.Report.{
  Finding, ValidationReport, error, warning, info, finding_cmp, severity_ord,
}
use soroban_upgrades.Validation.{validate_with_history}
use soroban_upgrades.Validation.Accepted.{IsAccepted, safe_iff}
use soroban_upgrades.Samples.Release.{
  external, source, target, source_schema, target_schema, context, history,
}

abbrev pub report : ValidationReport
report =
    validate_with_history external source target (some source_schema) (some target_schema)
      default_policy context (some history)

-- The sample is a safe release.
pub report_is_safe : report.safe ≡ true
unfolding validate_with_history Sort.sort_by finding_cmp severity_ord check_policy
    check_protocol_context check_environment_compatibility check_cap_0086 uses_cap_0086_sparse_read
    uses_cap_0086_sparse_write BTreeSet.contains BTreeSet.insert BTreeSet.collect
    BTreeSet.intersection BTreeMap.get BTreeMap.contains_key BTreeMap.insert BTreeMap.collect error
    warning info has_function version compare_interfaces check_versions struct_fields pointer get
    as_array as_str same Value-discrete Durability-discrete artifact_struct_fields field_record
    is_reserved validate_schema_history validate_schema_manifests compare_storage_schemas is_blank
    is_control is_whitespace reaches_update check_upgrade_host_capability trace_public_impacts
report_is_safe = refl

codes : map (λ (f : Finding). f.code) report.findings ≡ "NET005" ∷ "STO002" ∷ []
unfolding validate_with_history Sort.sort_by finding_cmp severity_ord check_policy
    check_protocol_context check_environment_compatibility check_cap_0086 uses_cap_0086_sparse_read
    uses_cap_0086_sparse_write BTreeSet.contains BTreeSet.insert BTreeSet.collect
    BTreeSet.intersection BTreeMap.get BTreeMap.contains_key BTreeMap.insert BTreeMap.collect error
    warning info has_function version compare_interfaces check_versions struct_fields pointer get
    as_array as_str same Value-discrete Durability-discrete artifact_struct_fields field_record
    is_reserved validate_schema_history validate_schema_manifests compare_storage_schemas is_blank
    is_control is_whitespace reaches_update check_upgrade_host_capability trace_public_impacts
codes = refl

safe_iff_example :
    IsAccepted external source target
      (some source_schema)
      (some target_schema)
      default_policy
      context
      (some history)
safe_iff_example =
    (safe_iff external source target (some source_schema) (some target_schema) default_policy
        context (some history)).0
      report_is_safe
