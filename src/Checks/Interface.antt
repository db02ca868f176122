-- ===== src/Checks/Interface.antt =====
-- `check_versions`, `compare_interfaces` and the readers of a structure's canonical form.
pub mod Passes
use soroban_upgrades.Base.{
  ℕ, String, Bool, true, false, not, ◌&&◌, ◌||◌, List, [], ◌∷◌, ◌++◌, Option, none, some, leb,
  if◌then◌else◌, is_some, any, all, filter, map, length, is_empty, flat_map, str_eq, unwrap_or,
  same, Ordering,
}
use soroban_upgrades.Base.BTreeMap
use soroban_upgrades.Base.BTreeMap.{BTreeMap}
use soroban_upgrades.Base.Text.{◌<>◌, show, join}
use soroban_upgrades.Json.Value as Json
use soroban_upgrades.Json.Value.{Value, object, Value-discrete, pointer, as_array, as_str}
use soroban_upgrades.Artifact.{InterfaceEntry, Artifact, version, uses_cap_0086_sparse_read}
use soroban_upgrades.Policy.{Policy, ValidationContext}
use soroban_upgrades.Report.{Finding, error}
use soroban_upgrades.Checks.External.{External}
use soroban_upgrades.Checks.Capability.{cap_0086_protocol}
use mathlib.Core.Option

abbrev pub then_some {ℓ κ} : {A : Type ℓ} {B : Type κ} → Option A → (A → Option B) → Option B
then_some none f = none
then_some (some a) f = f a

-- `iter().map(f).collect::<Option<Vec<_>>>()`
abbrev pub collect_options {ℓ κ} :
    {A : Type ℓ} {B : Type κ} → (A → Option B) → List A → Option (List B)
collect_options f [] = some []
collect_options f (a ∷ as') =
    then_some (f a) (λ b. then_some (collect_options f as') (λ bs. some (b ∷ bs)))

-- A field of a structure: its name and its type.
unfoldable pub struct_field : Value → Option (String × Value)
struct_field field =
    then_some (then_some (Json.get "name" field) as_str)
      (λ name. Option.map (λ t. (name, t)) (Json.get "type_" field))

unfoldable pub struct_fields : InterfaceEntry → Option (BTreeMap Value)
unfolding struct_field
struct_fields entry =
    then_some (then_some (pointer ("udt_struct_v0" ∷ "fields" ∷ []) entry.canonical) as_array)
      (λ fields. Option.map BTreeMap.collect (collect_options struct_field fields))

unfoldable pub is_option_type : Value → Bool
is_option_type (object fs) = is_some (Json.get "option" (object fs))
is_option_type _ = false

-- `new_fields.get(name) != Some(old_type)`
abbrev keeps_field : BTreeMap Value → String × Value → Bool
keeps_field new_fields (name, old_type) = is_same (BTreeMap.get name new_fields)
  where
    is_same : Option Value → Bool
    is_same none = false
    is_same (some new_type) = same Value-discrete new_type old_type

abbrev added_option : String × Value → Option String
added_option (name, field_type) = if is_option_type field_type then some name else none

unfoldable pub added_fields : (old_fields new_fields : BTreeMap Value) → Option (List String)
added_fields old_fields new_fields =
    if leb (length new_fields) (length old_fields) || not (all (keeps_field new_fields) old_fields)
    then none
    else then_some
        (collect_options added_option
          (filter (λ (name, t). not (BTreeMap.contains_key name old_fields)) new_fields))
        (λ added. if is_empty added then none else some added)

unfoldable pub optional_struct_fields_added : (old new : InterfaceEntry) → Option (List String)
unfolding added_fields
optional_struct_fields_added old new =
    if not (str_eq old.kind "struct") || not (str_eq new.kind "struct")
    then none
    else then_some (struct_fields old)
        (λ old_fields. then_some (struct_fields new) (added_fields old_fields))

-- `old.canonical != new.canonical`
abbrev pub is_changed : (old new : InterfaceEntry) → Bool
is_changed old new = not (same Value-discrete old.canonical new.canonical)

abbrev function_change : Policy → String → InterfaceEntry → Option InterfaceEntry → List Finding
function_change policy name old none =
    if policy.deny_removed_functions
    then error "ABI001" "Public function removed"
        ("The target contract removes `" <> name <> "` from the public specification.")
        "Preserve the function, introduce a compatibility shim, or document and explicitly approve the breaking change."
      ∷ []
    else []
function_change policy name old (some new) =
    if policy.deny_changed_functions && is_changed old new
    then error "ABI002" "Public function signature changed"
        ("The inputs, output, or specification of `" <> name <> "` changed.")
        "Add a new entrypoint and keep the old signature until downstream clients have migrated."
      ∷ []
    else []

abbrev event_change : Policy → String → InterfaceEntry → Option InterfaceEntry → List Finding
event_change policy name old none =
    if policy.deny_removed_events
    then error "EVT001" "Contract event was removed"
        ("The target contract removes event `" <> name <> "` from the public specification.")
        "Keep the event schema or complete a reviewed indexer migration before the release."
      ∷ []
    else []
event_change policy name old (some new) =
    if policy.deny_changed_events && is_changed old new
    then error "EVT002" "Contract event schema changed"
        ("The topics, parameters, types, or data format of event `" <> name <> "` changed.")
        "Add a new event name and keep the old schema for existing consumers."
      ∷ []
    else []

-- The finding for a changed type, by what `optional_struct_fields_added` says.
type_finding :
    (target : Artifact)
    → ValidationContext
    → String
    → InterfaceEntry
    → Option (List String)
    → Finding
type_finding target context name old (some added) =
    if leb cap_0086_protocol (unwrap_or context.target_protocol_version 0)
      && uses_cap_0086_sparse_read target
    then error "CAP005" "CAP-0086 reader binding is not proven for the changed type"
        ("The `"
          <> name
          <> "` struct adds only optional field(s): "
          <> join ", " added
          <> ". Protocol support and a global sparse-read import are present, but the artifact does not prove that this specific type is decoded through that reader.")
        "Provide generated type-to-reader evidence and test old/new reader-writer directions against historical state before approving the change."
    else error "CAP006"
        "Optional field addition is not supported by the selected artifact and protocol"
        ("The `"
          <> name
          <> "` struct adds optional field(s) "
          <> join ", " added
          <> ", but compatibility requires both protocol 28+ and a candidate that imports CAP-0086 sparse decoding.")
        "Use explicit versioned migration today, or rebuild with CAP-0086 support after activation and re-run validation against the target protocol."
type_finding target context name old none =
    error "ABI004" "Contract Spec type changed"
      ("The `" <> name <> "` " <> old.kind
        <> " definition changed in a way this policy does not classify as compatible. Contract Spec alone does not prove the type's runtime role.")
      "Introduce a versioned type and migration path instead of mutating the existing definition in place."

type_change :
    (target : Artifact)
    → Policy
    → ValidationContext
    → String
    → InterfaceEntry
    → Option InterfaceEntry
    → List Finding
unfolding type_finding
type_change target policy context name old none =
    if policy.deny_changed_user_types
    then error "ABI003" "Contract Spec type removed"
        ("The target contract removes the `" <> name <> "` " <> old.kind
          <> " definition. Contract Spec alone does not identify every public, stored, or cross-contract use of this type.")
        "Preserve the type or prove every relevant public, storage, and cross-contract migration path before approving removal."
      ∷ []
    else []
type_change target policy context name old (some new) =
    if policy.deny_changed_user_types && is_changed old new
    then type_finding target context name old (optional_struct_fields_added old new) ∷ []
    else []

unfoldable pub compare_interfaces :
    (source target : Artifact) → Policy → ValidationContext → List Finding
unfolding type_change
compare_interfaces source target policy context =
    flat_map (λ (name, old). function_change policy name old (BTreeMap.get name target.functions))
      source.functions
    ++ (flat_map (λ (name, old). event_change policy name old (BTreeMap.get name target.events))
          source.events
        ++ flat_map
            (λ (name, old).
              type_change target policy context name old (BTreeMap.get name target.user_types))
            source.user_types)

module _ (x : External) where
  abbrev is_gt : Ordering → Bool
  is_gt Ordering.gt = true
  is_gt _ = false

  -- The `match` on the two parsed versions, of the texts `from` and `to`.
  version_order : (from to : String) → Option x.Version → Option x.Version → List Finding
  version_order from to (some old) (some new) =
      if is_gt (x.compare_versions new old)
      then []
      else error "VER002" "Target version does not increase"
          ("Target `binver` "
            <> x.show_version new
            <> " must be greater than source `binver` "
            <> x.show_version old
            <> ".")
          "Use a higher semantic version matching the compatibility impact of the release."
        ∷ []
  version_order from to _ _ =
      error "VER003" "Invalid semantic version metadata"
        ("Could not compare source `" <> from <> "` with target `" <> to
          <> "` as semantic versions.")
        "Use valid SemVer values such as `1.2.0`."
      ∷ []

  compare_version_texts : Option String → Option String → List Finding
  unfolding version_order
  compare_version_texts (some from) (some to) =
      version_order from to (x.parse_version from) (x.parse_version to)
  compare_version_texts _ _ =
      error "VER001" "Missing SEP-49 `binver` metadata"
        "Both source and target WASM must embed a semantic version under the `binver` contract metadata key."
        "Build with `stellar contract build --meta binver=<semver>` for both artifacts."
      ∷ []

  unfoldable pub check_versions : (source target : Artifact) → Policy → List Finding
  unfolding compare_version_texts
  check_versions source target policy =
      if not policy.require_semver_increase
      then []
      else compare_version_texts (version source) (version target)
