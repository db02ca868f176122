-- ===== src/Samples/Parts.antt =====
-- The components at small inputs: the call graph, the specification, the documents, the guards.
use soroban_upgrades.Base.{
  zero, suc, String, ◌≡◌, ◌≢◌, refl, ◌↔◌, ◌⊎◌, true, false, some, List, [], ◌∷◌, In, arith,
}
use soroban_upgrades.Base.Order.{string_ord, nat_ord}
use soroban_upgrades.Base.Result.{ok}
use soroban_upgrades.Base.BTreeSet
use soroban_upgrades.Base.BTreeMap
use soroban_upgrades.Base.Text.{as_bytes, is_control, is_whitespace}
use soroban_upgrades.Json.Value.{Value, object, field, end, string, get, pointer, as_array, as_str}
use soroban_upgrades.Json.Strict.{
  Reader, visit, parse_json_strict, HasUniqueKeys, parse_json_strict-eq-ok_iff,
}
use soroban_upgrades.Json.Documentation.{HasNoDoc, strip_documentation, strip_documentation_lem}
use soroban_upgrades.Artifact.{ExportCallEvidence}
use soroban_upgrades.Artifact.Spec.{
  udt, vec, map as map_type, u32, collect_udt_names, Mentions, collect_udt_names_iff,
}
use soroban_upgrades.Artifact.Load.{ensure_unique_spec_members}
use soroban_upgrades.Artifact.Load.Unique.{HasNoRepeat, ensure_unique_spec_members_iff}
use soroban_upgrades.Artifact.Calls.{FunctionBodyCalls, collect_export_call_evidence}
use soroban_upgrades.Artifact.Calls.Sound.{ReachesImport, ReachesDynamic}
use soroban_upgrades.Artifact.Calls.Complete.{collect_export_call_evidence_exact}
use soroban_upgrades.Artifact.Calls.Total.{CallsExist, collect_export_call_evidence_total}
use soroban_upgrades.Plan.Secret.{
  contains_stellar_private_key, HasKey, contains_stellar_private_key_iff,
}
use soroban_upgrades.Plan.Shell.{render_command}
use soroban_upgrades.Plan.Shell.Lexer.{shell_words}
use soroban_upgrades.Plan.Shell.Words.{shell_words-render_command}
use soroban_upgrades.Plan.Guards.{
  validate_call_arguments, validate_plan_input_paths, validate_invariant_check,
  validate_source_identity, validate_plan_string,
}
use soroban_upgrades.Plan.Guards.Calls.{IsCallOf, validate_call_arguments_iff}
use soroban_upgrades.Plan.Guards.Texts.{
  IsPlanText, IsPolicyPath, IsName, IsArgument, validate_plan_input_paths_iff,
  validate_source_identity_iff, validate_invariant_check_iff,
}
use soroban_upgrades.Samples.Release.{plan_external, target, inputs, operations}
use mathlib.Core.Option

-- Two imports, and two bodies: function 2 calls function 3, which calls the first import and
-- function 2, and a table.
abbrev imports : List String
imports = "l.6" ∷ "m.c" ∷ []

abbrev bodies : List FunctionBodyCalls
bodies =
    record { direct_calls = 3 ∷ []; has_dynamic_dispatch = false }
    ∷ record { direct_calls = 0 ∷ 2 ∷ []; has_dynamic_dispatch = true }
    ∷ []

calls_exist : CallsExist imports bodies
calls_exist zero v b h m = ground arith
calls_exist (suc zero) v b h m = ground arith
calls_exist (suc (suc j)) v b h m = absurd (ground arith)

abbrev evidence : ExportCallEvidence
evidence = record { host_imports = "l.6" ∷ []; dynamic_dispatch_reachable = true }

collected : collect_export_call_evidence imports bodies 2 ≡ ok evidence
unfolding collect_export_call_evidence BTreeSet.contains BTreeSet.insert
collected = refl

collect_export_call_evidence_total_example :
    (e : ExportCallEvidence) × (collect_export_call_evidence imports bodies 2 ≡ ok e)
    × ((name : String) → In name e.host_imports ↔ ReachesImport imports bodies 2 name)
    × ((e.dynamic_dispatch_reachable ≡ true) ↔ ReachesDynamic imports bodies 2)
collect_export_call_evidence_total_example =
    collect_export_call_evidence_total imports bodies 2 calls_exist (omega arith)

collect_export_call_evidence_exact_example :
    ((name : String) → In name evidence.host_imports ↔ ReachesImport imports bodies 2 name)
    × ((evidence.dynamic_dispatch_reachable ≡ true) ↔ ReachesDynamic imports bodies 2)
collect_export_call_evidence_exact_example =
    collect_export_call_evidence_exact imports bodies 2 evidence collected

collect_udt_names_iff_example :
    In "Coin" (collect_udt_names (map_type u32 (vec (udt "Coin"))) [])
    ↔ (Mentions "Coin" (map_type u32 (vec (udt "Coin"))) ⊎ In {A = String} "Coin" [])
collect_udt_names_iff_example = collect_udt_names_iff "Coin" (map_type u32 (vec (udt "Coin"))) []

distinct_members : ensure_unique_spec_members "struct" "Account" ("a" ∷ "b" ∷ []) ≡ ok tt
unfolding ensure_unique_spec_members BTreeSet.contains BTreeSet.insert
distinct_members = refl

ensure_unique_spec_members_iff_example : HasNoRepeat ("a" ∷ "b" ∷ [])
ensure_unique_spec_members_iff_example =
    (ensure_unique_spec_members_iff "struct" "Account" ("a" ∷ "b" ∷ [])).0 distinct_members

abbrev document : Value
document = object (field "doc" (string "text") (field "name" (string "upgrade") end))

-- A reader of one document.
abbrev reader : Reader Value
reader = record {
  document = λ bytes. ok document;
  from_slice = λ bytes. ok document;
  duplicate_key_message = λ k. k;
}

parsed : parse_json_strict reader [] ≡ ok document
unfolding parse_json_strict visit BTreeSet.contains BTreeSet.insert
parsed = refl

parse_json_strict-eq-ok_iff_example :
    (v : Value) × (reader.document [] ≡ ok v)
    × HasUniqueKeys v
    × (reader.from_slice [] ≡ ok document)
parse_json_strict-eq-ok_iff_example = (parse_json_strict-eq-ok_iff reader [] document).0 parsed

strip_documentation_lem_example :
    HasNoDoc (strip_documentation document)
    × (HasNoDoc document → strip_documentation document ≡ document)
    × (strip_documentation (strip_documentation document) ≡ strip_documentation document)
    × ((k : String)
        → k ≢ "doc"
        → get k (strip_documentation document) ≡ Option.map strip_documentation (get k document))
strip_documentation_lem_example = strip_documentation_lem document

abbrev key : String
key = "SSSSSSSSSSSSSSSSSSSSSSSSSSSSSSSSSSSSSSSSSSSSSSSSSSSSSSSS"

key_is_found : contains_stellar_private_key plan_external key ≡ true
unfolding contains_stellar_private_key as_bytes
key_is_found = refl

contains_stellar_private_key_iff_example : HasKey plan_external (as_bytes key)
contains_stellar_private_key_iff_example =
    (contains_stellar_private_key_iff plan_external key).0 key_is_found

shell_words-render_command_example :
    shell_words (render_command "echo" ("it's" ∷ "" ∷ [])) ≡ some ("echo" ∷ "it's" ∷ "" ∷ [])
shell_words-render_command_example = shell_words-render_command "echo" ("it's" ∷ "" ∷ [])

migrate_passes :
    validate_call_arguments plan_external target "migrate" (("operator", "alice") ∷ []) "migration"
    ≡ ok tt
unfolding validate_call_arguments contains_stellar_private_key as_bytes BTreeMap.get pointer get
    as_array as_str BTreeSet.collect BTreeSet.insert
migrate_passes = refl

validate_call_arguments_iff_example :
    IsCallOf plan_external target "migrate" (("operator", "alice") ∷ [])
validate_call_arguments_iff_example =
    (validate_call_arguments_iff plan_external target "migrate" (("operator", "alice") ∷ [])
        "migration").0
      migrate_passes

paths_pass : validate_plan_input_paths plan_external inputs ≡ ok tt
unfolding validate_plan_input_paths validate_plan_string contains_stellar_private_key as_bytes
    is_control
paths_pass = refl

validate_plan_input_paths_iff_example :
    IsPlanText plan_external 4096 inputs.source_wasm
    × IsPlanText plan_external 4096 inputs.target_wasm
    × IsPlanText plan_external 4096 inputs.source_schema
    × IsPlanText plan_external 4096 inputs.target_schema
    × IsPlanText plan_external 4096 inputs.schema_history
    × IsPolicyPath plan_external inputs.policy
validate_plan_input_paths_iff_example =
    (validate_plan_input_paths_iff plan_external inputs).0 paths_pass

identity_passes : validate_source_identity plan_external "alice" ≡ ok tt
unfolding validate_source_identity contains_stellar_private_key as_bytes is_control is_whitespace
identity_passes = refl

validate_source_identity_iff_example : IsName plan_external 128 "alice"
validate_source_identity_iff_example =
    (validate_source_identity_iff plan_external "alice").0 identity_passes

invariants_pass : validate_invariant_check plan_external operations.invariant_check ≡ ok tt
unfolding validate_invariant_check contains_stellar_private_key as_bytes is_control is_whitespace
invariants_pass = refl

validate_invariant_check_iff_example :
    IsName plan_external 256 "cargo"
    × ((argument : String) → In argument ("test" ∷ []) → IsArgument plan_external argument)
validate_invariant_check_iff_example =
    (validate_invariant_check_iff plan_external operations.invariant_check).0 invariants_pass
