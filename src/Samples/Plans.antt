-- ===== src/Samples/Plans.antt =====
-- The plan of the sample release.
use soroban_upgrades.Base.{◌≡◌, refl, true, some}
use soroban_upgrades.Base.Result.{ok}
use soroban_upgrades.Base.{same}
use soroban_upgrades.Base.Sort
use soroban_upgrades.Base.BTreeSet
use soroban_upgrades.Base.BTreeMap
use soroban_upgrades.Base.Text.{as_bytes, show, is_blank, is_control, is_whitespace}
use soroban_upgrades.Json.Value.{Value-discrete, pointer, get, as_array, as_str}
use soroban_upgrades.Artifact.{
  has_function, version, uses_cap_0086_sparse_read, uses_cap_0086_sparse_write,
}
use soroban_upgrades.Schema.{Durability-discrete}
use soroban_upgrades.Checks.Network.{
  check_policy, check_protocol_context, check_environment_compatibility,
}
use soroban_upgrades.Checks.Capability.{
  check_cap_0086, check_upgrade_host_capability, reaches_update,
}
use soroban_upgrades.Checks.Interface.{
  struct_field, compare_interfaces, check_versions, struct_fields,
}
use soroban_upgrades.Checks.Storage.{validate_schema_manifests, compare_storage_schemas}
use soroban_upgrades.Checks.History.{
  validate_schema_history, artifact_struct_fields, field_record, is_reserved,
}
use soroban_upgrades.Impact.{trace_public_impacts}
use soroban_upgrades.Policy.{default_policy, ProtocolSource-discrete}
use soroban_upgrades.Report.{error, warning, info, finding_cmp, severity_ord}
use soroban_upgrades.Validation.{validate_with_history}
use soroban_upgrades.Plan.{UpgradePlan}
use soroban_upgrades.Plan.Shell.{render_command}
use soroban_upgrades.Plan.Secret.{contains_stellar_private_key}
use soroban_upgrades.Plan.Guards.{
  validate_plan_string, validate_plan_input_paths, validate_source_identity,
  validate_invariant_check, validate_call_arguments, validate_standard_upgrade_entrypoint,
  function_inputs, input_name,
}
use soroban_upgrades.Plan.Create.{
  create_plan_with_paths, with_digest, draft_plan, plan_steps, storage_migration_required,
  declared_entrypoints, is_unpinned, calculate_plan_sha256, check_plan,
}
use soroban_upgrades.Plan.Create.Ready.{IsReady, IsSealed, create_plan_with_paths-eq-ok_iff}
use soroban_upgrades.Plan.Verify.{verify_plan_digest}
use soroban_upgrades.Plan.Verify.Exact.{
  KeepsDigestApart, verify_plan_digest_iff, verify_plan_digest-create_plan_with_paths,
}
use soroban_upgrades.Samples.Release.{
  external, plan_external, source, target, source_schema, target_schema, context, history, inputs,
  operations,
}
use soroban_upgrades.Samples.Core.{report}

abbrev draft : UpgradePlan
draft = draft_plan report "testnet" "CCONTRACT" "alice" inputs operations

abbrev pub plan : UpgradePlan
plan = with_digest "3485" draft

-- `create_plan_with_paths` makes the plan.
pub made :
    create_plan_with_paths plan_external report "testnet" "CCONTRACT" "alice" inputs operations
    ≡ ok plan
unfolding create_plan_with_paths draft_plan check_plan plan_steps render_command
    storage_migration_required declared_entrypoints is_unpinned validate_plan_string
    validate_plan_input_paths validate_source_identity validate_invariant_check
    validate_call_arguments validate_standard_upgrade_entrypoint contains_stellar_private_key
    function_inputs input_name struct_field ProtocolSource-discrete as_bytes show BTreeSet.extend
    calculate_plan_sha256 validate_with_history Sort.sort_by finding_cmp severity_ord check_policy
    check_protocol_context check_environment_compatibility check_cap_0086 uses_cap_0086_sparse_read
    uses_cap_0086_sparse_write BTreeSet.contains BTreeSet.insert BTreeSet.collect
    BTreeSet.intersection BTreeMap.get BTreeMap.contains_key BTreeMap.insert BTreeMap.collect error
    warning info has_function version compare_interfaces check_versions struct_fields pointer get
    as_array as_str same Value-discrete Durability-discrete artifact_struct_fields field_record
    is_reserved validate_schema_history validate_schema_manifests compare_storage_schemas is_blank
    is_control is_whitespace reaches_update check_upgrade_host_capability trace_public_impacts
made = refl

create_plan_with_paths-eq-ok_iff_example :
    IsReady plan_external report "testnet" "CCONTRACT" "alice" inputs operations
    × IsSealed plan_external draft plan
create_plan_with_paths-eq-ok_iff_example =
    (create_plan_with_paths-eq-ok_iff plan_external report "testnet" "CCONTRACT" "alice" inputs
        operations plan).0
      made

-- The sample serialiser writes the digest under its own key.
keeps_apart : KeepsDigestApart plan_external
keeps_apart p digest = refl

verify_plan_digest-create_plan_with_paths_example : verify_plan_digest plan_external plan ≡ ok true
verify_plan_digest-create_plan_with_paths_example =
    verify_plan_digest-create_plan_with_paths plan_external keeps_apart source target
      (some source_schema) (some target_schema) default_policy context (some history) "testnet"
      "CCONTRACT" "alice" inputs operations plan made

verified : verify_plan_digest plan_external plan ≡ ok true
verified =
    verify_plan_digest-create_plan_with_paths plan_external keeps_apart source target
      (some source_schema) (some target_schema) default_policy context (some history) "testnet"
      "CCONTRACT" "alice" inputs operations plan made

verify_plan_digest_iff_example :
    (validate_with_history external source target
        (some source_schema)
        (some target_schema)
        default_policy
        context
        (some history)
      ≡ plan.validation)
    × (create_plan_with_paths plan_external plan.validation "testnet" "CCONTRACT" "alice" inputs
          operations
        ≡ ok plan)
unfolding validate_with_history draft_plan
verify_plan_digest_iff_example = (verify_plan_digest_iff plan_external keeps_apart plan).0 verified
