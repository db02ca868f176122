-- ===== src/Checks/History.antt =====
-- `validate_schema_history`: the life of every field name, from the history manifest. The function is
-- four loops after two tests; each loop is a function here.
pub mod Passes
use soroban_upgrades.Base.{
  ℕ, String, Bool, true, false, not, ◌&&◌, ◌||◌, List, [], ◌∷◌, ◌++◌, Option, none, some, ◌==◌,
  if◌then◌else◌, is_some_and, is_none_or, is_some, is_none, flat_map, filter_map, str_eq, unwrap_or,
  same, Ordering,
}
use soroban_upgrades.Base.Order.{string_ord}
use soroban_upgrades.Base.BTreeMap
use soroban_upgrades.Base.BTreeMap.{BTreeMap}
use soroban_upgrades.Base.BTreeSet
use soroban_upgrades.Base.Text.{◌<>◌, show}
use soroban_upgrades.Json.Value.{Value, Value-discrete}
use soroban_upgrades.Artifact.{InterfaceEntry, Artifact, version}
use soroban_upgrades.Schema.{HistoricalField, TypeHistory, SchemaHistory}
use soroban_upgrades.Report.{Finding, error, warning}
use soroban_upgrades.Checks.External.{External, display_json}
use soroban_upgrades.Checks.Interface.{struct_fields, then_some}
use mathlib.Core.Option

-- The structures of an artifact, with their fields.
unfoldable pub artifact_struct_fields : Artifact → BTreeMap (BTreeMap Value)
artifact_struct_fields artifact = BTreeMap.collect (
    filter_map (λ (name, entry). Option.map (λ fields. (name, fields)) (struct_fields entry))
      artifact.user_types)

-- `history.types.get(type_name).and_then(|t| t.fields.get(field_name))`
unfoldable pub field_record :
    SchemaHistory → (type_name field_name : String) → Option HistoricalField
field_record history type_name field_name =
    then_some (BTreeMap.get type_name history.types) (λ t. BTreeMap.get field_name t.fields)

-- The field name is reserved in the history of its type.
unfoldable pub is_reserved : SchemaHistory → (type_name field_name : String) → Bool
is_reserved history type_name field_name =
    is_some_and (BTreeMap.get type_name history.types)
      (λ t. BTreeSet.contains field_name t.reserved_fields)

-- `record.retired_in.as_deref() != Some(target_version)`, negated
abbrev pub is_retired_in : String → HistoricalField → Bool
is_retired_in target_version r = is_some_and r.retired_in (λ v. str_eq v target_version)

module _ (x : External) where
  -- `retired_in.map(Version::parse).transpose()`; the outer `none` is the error.
  abbrev pub parse_retired : Option String → Option (Option x.Version)
  parse_retired none = some none
  parse_retired (some text) = Option.map some (x.parse_version text)

  abbrev pub is_lt : Ordering → Bool
  is_lt Ordering.lt = true
  is_lt _ = false

  unfoldable pub lifecycle :
      (type_name : String)
      → TypeHistory
      → (field_name : String) → Option x.Version
      → Option (Option x.Version)
      → List Finding
  lifecycle type_name type_history field_name none retired =
      error "HIS013" "History contains an invalid semantic version"
        ("History for `" <> type_name <> "." <> field_name
          <> "` has an invalid `firstSeen` or `retiredIn` value.")
        "Use exact semantic versions from released `binver` metadata."
      ∷ []
  lifecycle type_name type_history field_name (some first) none =
      error "HIS013" "History contains an invalid semantic version"
        ("History for `" <> type_name <> "." <> field_name
          <> "` has an invalid `firstSeen` or `retiredIn` value.")
        "Use exact semantic versions from released `binver` metadata."
      ∷ []
  lifecycle type_name type_history field_name (some first) (some none) = []
  lifecycle type_name type_history field_name (some first) (some (some retired)) =
      (if is_lt (x.compare_versions retired first)
        then error "HIS014" "Field retirement precedes its first release"
            ("History retires `"
              <> type_name
              <> "."
              <> field_name
              <> "` in "
              <> x.show_version retired
              <> ", before its first release "
              <> x.show_version first
              <> ".")
            "Correct the release versions from attested historical artifacts."
          ∷ []
        else [])
      ++ (if not (BTreeSet.contains field_name type_history.reserved_fields)
          then error "HIS015" "Retired field name is not reserved"
              ("History retires `" <> type_name <> "." <> field_name
                <> "` but does not reserve the field name.")
              "Add every retired field name to `reservedFields` and never reuse it."
            ∷ []
          else [])

  -- The loop over the records of the history itself.
  unfoldable pub record_findings : String × TypeHistory → List Finding
  unfolding lifecycle
  record_findings (type_name, type_history) =
      flat_map
        (λ (field_name, r).
          lifecycle type_name type_history field_name (x.parse_version r.first_seen)
            (parse_retired r.retired_in))
        type_history.fields
      ++ flat_map
          (λ field_name.
            if is_none_or (BTreeMap.get field_name type_history.fields) (λ r. is_none r.retired_in)
            then error "HIS016" "Reserved field has no retirement record"
                ("History reserves `" <> type_name <> "." <> field_name
                  <> "` without a matching retired field record.")
                "Record the historical type and retirement release for each reserved field name."
              ∷ []
            else [])
          type_history.reserved_fields

  -- A field of the source artifact against its record.
  abbrev pub source_field :
      (source_version type_name field_name : String) (field_type : Value)
      → Option HistoricalField
      → List Finding
  source_field source_version type_name field_name field_type none =
      error "HIS002" "Historical baseline is incomplete"
        ("Source " <> source_version <> " contains `" <> type_name <> "." <> field_name
          <> "`, but the cumulative history has no record of it.")
        "Bootstrap the manifest from all known releases and preserve every historical field before approving an upgrade."
      ∷ []
  source_field source_version type_name field_name field_type (some r) =
      if not (same Value-discrete r.value_type field_type)
      then error "HIS003" "Historical field type does not match the source artifact"
          ("History records `"
            <> type_name
            <> "."
            <> field_name
            <> "` as "
            <> display_json x r.value_type
            <> ", but source "
            <> source_version
            <> " contains "
            <> display_json x field_type
            <> ".")
          "Correct the history from attested release artifacts. Do not rewrite history to fit the candidate."
        ∷ []
      else []

  unfoldable pub source_findings : SchemaHistory → String → BTreeMap (BTreeMap Value) → List Finding
  source_findings history source_version source_types =
      flat_map
        (λ (type_name, fields).
          flat_map
            (λ (field_name, field_type).
              source_field source_version type_name field_name field_type
                (field_record history type_name field_name))
            fields)
        source_types

  -- A field of the target artifact against its record; `is_new` is that the source does not have it.
  abbrev pub target_record :
      (target_version type_name field_name : String) (field_type : Value) (is_new : Bool)
      → Option HistoricalField
      → List Finding
  target_record target_version type_name field_name field_type is_new none =
      error "HIS006" "Candidate field is missing from schema history"
        ("Target " <> target_version <> " contains `" <> type_name <> "." <> field_name
          <> "`, but the cumulative history was not updated.")
        "Record the field type and set `firstSeen` to the candidate contract version."
      ∷ []
  target_record target_version type_name field_name field_type is_new (some r) =
      (if is_some r.retired_in
        then error "HIS007" "Retired field was reintroduced"
            ("Target "
              <> target_version
              <> " contains `"
              <> type_name
              <> "."
              <> field_name
              <> "`, which history marks retired in "
              <> unwrap_or r.retired_in "an earlier release"
              <> ".")
            "Use a new field name. Never reinterpret a retired key across stored or cross-contract maps."
          ∷ []
        else [])
      ++ ((if not (same Value-discrete r.value_type field_type)
            then error "HIS008" "Historical field type changed"
                ("History fixes `"
                  <> type_name
                  <> "."
                  <> field_name
                  <> "` as "
                  <> display_json x r.value_type
                  <> ", but target "
                  <> target_version
                  <> " contains "
                  <> display_json x field_type
                  <> ".")
                "Add a new field and explicit migration rather than changing the meaning or representation of a historical field name."
              ∷ []
            else [])
          ++ (if is_new && not (str_eq r.first_seen target_version)
              then error "HIS009" "New field has an incorrect first-seen release"
                  ("`" <> type_name <> "." <> field_name <> "` first appears in target "
                    <> target_version <> ", but history declares `" <> r.first_seen <> "`.")
                  "Set `firstSeen` to the exact candidate `binver` and review the history change with the WASM."
                ∷ []
              else []))

  abbrev pub target_field :
      (target_version type_name : String)
      → TypeHistory
      → BTreeMap (BTreeMap Value)
      → (field_name : String) (field_type : Value) → List Finding
  target_field target_version type_name type_history source_types field_name field_type =
      (if BTreeSet.contains field_name type_history.reserved_fields
        then error "HIS005" "Reserved field name was reused"
            ("Target " <> target_version <> " reintroduces reserved field `" <> type_name <> "."
              <> field_name <> "`, creating a historical type-confusion risk.")
            "Choose a new field name and keep the historical name permanently reserved."
          ∷ []
        else [])
      ++ target_record target_version type_name field_name field_type
          (not (
            is_some_and (BTreeMap.get type_name source_types)
              (λ fields. BTreeMap.contains_key field_name fields)))
          (BTreeMap.get field_name type_history.fields)

  abbrev pub target_type :
      (target_version type_name : String)
      → BTreeMap (BTreeMap Value)
      → BTreeMap Value
      → Option TypeHistory
      → List Finding
  target_type target_version type_name source_types fields none =
      error "HIS004" "Candidate type is missing from schema history"
        ("Target " <> target_version <> " contains struct `" <> type_name
          <> "`, but the cumulative history has no record for the type.")
        "Add the type and every field with accurate `firstSeen` values in the same reviewed release change."
      ∷ []
  target_type target_version type_name source_types fields (some type_history) =
      flat_map
        (λ (field_name, field_type).
          target_field target_version type_name type_history source_types field_name field_type)
        fields

  unfoldable pub target_findings :
      SchemaHistory
      → String
      → (source_types target_types : BTreeMap (BTreeMap Value)) → List Finding
  target_findings history target_version source_types target_types =
      flat_map
        (λ (type_name, fields).
          target_type target_version type_name source_types fields
            (BTreeMap.get type_name history.types))
        target_types

-- A source field that the target does not have.
unfoldable pub removed_field :
    SchemaHistory → (target_version type_name field_name : String) → List Finding
removed_field history target_version type_name field_name =
    if is_none_or (field_record history type_name field_name)
        (λ r. not (is_retired_in target_version r))
      || not (is_reserved history type_name field_name)
    then error "HIS010" "Removed field is not retired and reserved"
        ("Target " <> target_version <> " removes `" <> type_name <> "." <> field_name
          <> "` without recording retirement in this release and permanently reserving the name.")
        "Keep the field, or record `retiredIn` and add it to `reservedFields`. Prove all migration and reader compatibility assumptions separately."
      ∷ []
    else warning "HIS011" "Field removal is explicitly retired but remains migration-sensitive"
        ("`" <> type_name <> "." <> field_name <> "` is retired and reserved in " <> target_version
          <> ". Archived records or older contracts can still carry it.")
        "Rehearse archived-state reads and dependency rollout, and never reuse the field name."
      ∷ []

unfoldable pub removed_findings :
    SchemaHistory → String → (source_types target_types : BTreeMap (BTreeMap Value)) → List Finding
unfolding removed_field
removed_findings history target_version source_types target_types =
    flat_map
      (λ (type_name, source_fields).
        flat_map
          (λ field_name.
            if is_some_and (BTreeMap.get type_name target_types)
              (λ fields. BTreeMap.contains_key field_name fields)
            then []
            else removed_field history target_version type_name field_name)
          (BTreeMap.keys source_fields))
      source_types

unfoldable pub validate_schema_history :
    External → (source target : Artifact) → SchemaHistory → List Finding
unfolding record_findings source_findings target_findings removed_findings artifact_struct_fields
validate_schema_history x source target history =
    let source_version = unwrap_or (version source) "unknown" in
    let target_version = unwrap_or (version target) "unknown" in
    let source_types = artifact_struct_fields source in
    let target_types = artifact_struct_fields target in
    if not (history.format_version == 1)
    then error "HIS001" "Unsupported schema-history format"
        ("The history manifest uses format version "
          <> show history.format_version
          <> ". This build supports version 1.")
        "Regenerate the history manifest with a supported format before relying on it."
      ∷ []
    else (if not history.complete
        then error "HIS012" "Schema history is not marked complete"
            "The history does not declare complete coverage of all known releases and fields."
            "Set `complete` to true only after you reconstruct and review the full release history."
          ∷ []
        else [])
      ++ (flat_map (record_findings x) history.types
          ++ (source_findings x history source_version source_types
              ++ (target_findings x history target_version source_types target_types
                  ++ removed_findings history target_version source_types target_types)))
