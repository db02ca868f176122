-- ===== src/Samples/Checks.antt =====
-- The single checks, the order of the findings and the steps at the sample release.
use soroban_upgrades.Base.{String, ◌≡◌, true, some, unwrap_or, List, In, map, length}
use soroban_upgrades.Base.BTreeMap
use soroban_upgrades.Artifact.{version}
use soroban_upgrades.Policy.{default_policy}
use soroban_upgrades.Schema.{StorageEntry}
use soroban_upgrades.Report.{Severity, Finding}
use soroban_upgrades.Report.Passes.{PassesIff}
use soroban_upgrades.Checks.Capability.{check_cap_0086}
use soroban_upgrades.Checks.Capability.Passes.{IsSparseSound, check_cap_0086-passes}
use soroban_upgrades.Checks.Interface.{check_versions, compare_interfaces}
use soroban_upgrades.Checks.Interface.Passes.{
  KeepsAll, compare_interfaces-passes, check_versions-passes, Increases,
}
use soroban_upgrades.Checks.Storage.{key_counts, validate_schema_manifests, compare_storage_schemas}
use soroban_upgrades.Checks.Storage.Counts.{occurrences, key_counts-get}
use soroban_upgrades.Checks.Storage.Last.{IsLast}
use soroban_upgrades.Checks.Storage.Rounds.{IsPlanned}
use soroban_upgrades.Checks.Storage.Passes.{
  IsSound, IsRunnable, validate_schema_manifests-passes, compare_storage_schemas-passes,
}
use soroban_upgrades.Checks.History.{validate_schema_history}
use soroban_upgrades.Checks.History.Passes.{IsContinued, validate_schema_history-passes}
use soroban_upgrades.Validation.{all_findings}
use soroban_upgrades.Validation.Verdict.{IsInOrder, with_label, findings_lem}
use soroban_upgrades.Plan.{PlanStep}
use soroban_upgrades.Plan.Create.{plan_steps}
use soroban_upgrades.Plan.Create.Steps.{release_order, count_from, plan_steps-order}
use soroban_upgrades.Samples.Release.{
  external, source, target, source_schema, target_schema, context, history, operations,
}
use soroban_upgrades.Samples.Core.{report}
use mathlib.Core.List.{Perm}

compare_interfaces-passes_example :
    PassesIff (compare_interfaces source target default_policy context) (
      KeepsAll true true source.functions target.functions
      × (KeepsAll true true source.events target.events
          × KeepsAll true true source.user_types target.user_types))
compare_interfaces-passes_example = compare_interfaces-passes source target default_policy context

compare_storage_schemas-passes_example :
    PassesIff (compare_storage_schemas source_schema target_schema) (
      (old : StorageEntry)
      → IsLast old source_schema.entries
      → IsPlanned source_schema target_schema old)
compare_storage_schemas-passes_example = compare_storage_schemas-passes source_schema target_schema

validate_schema_manifests-passes_example :
    PassesIff (validate_schema_manifests external source target source_schema target_schema) (
      IsSound external source source_schema
      × (IsSound external target target_schema
          × ((entry : StorageEntry)
              → In entry target_schema.entries
              → IsRunnable target entry.migration)))
validate_schema_manifests-passes_example =
    validate_schema_manifests-passes external source target source_schema target_schema

validate_schema_history-passes_example :
    PassesIff
      (validate_schema_history external source target history)
      (IsContinued external source target history)
validate_schema_history-passes_example =
    validate_schema_history-passes external source target history

check_cap_0086-passes_example :
    PassesIff (check_cap_0086 target context) (IsSparseSound target context.target_protocol_version)
check_cap_0086-passes_example = check_cap_0086-passes target context

key_counts-get_example :
    unwrap_or (BTreeMap.get "Balance" (key_counts source_schema.entries)) 0
    ≡ occurrences "Balance" source_schema.entries
key_counts-get_example = key_counts-get "Balance" source_schema.entries

abbrev sample_findings : List Finding
sample_findings =
    all_findings external source target (some source_schema) (some target_schema) default_policy
      context (some history)

findings_lem_example :
    (Perm report.findings sample_findings × IsInOrder report.findings)
    × ((severity : Severity) (code : String)
        → with_label severity code report.findings ≡ with_label severity code sample_findings)
findings_lem_example =
    findings_lem external source target (some source_schema) (some target_schema) default_policy
      context (some history)

abbrev steps_at_sample : List PlanStep
steps_at_sample = plan_steps report "testnet" "CCONTRACT" "alice" "target.wasm" operations

plan_steps-order_example :
    (map (λ s. s.kind) steps_at_sample ≡ release_order true)
    × (map (λ s. s.position) steps_at_sample ≡ count_from 1 (length steps_at_sample))
plan_steps-order_example =
    plan_steps-order report "testnet" "CCONTRACT" "alice" "target.wasm" operations

check_versions-passes_example : PassesIff (check_versions external source target default_policy) (
    default_policy.require_semver_increase ≡ true
    → Increases external (version source) (version target))
check_versions-passes_example = check_versions-passes external source target default_policy
