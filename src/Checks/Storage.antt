-- ===== src/Checks/Storage.antt =====
-- `validate_schema_manifests` and `compare_storage_schemas`.
pub mod Counts
pub mod Last
pub mod Rounds
pub mod Passes
use soroban_upgrades.Base.{
  ℕ, ◌+◌, String, Bool, true, false, not, ◌&&◌, ◌||◌, List, [], ◌∷◌, ◌++◌, Option, none, some, ltb,
  leb, ◌==◌, if◌then◌else◌, any, map, flat_map, str_eq, unwrap_or, same, is_none,
}
use soroban_upgrades.Base.BTreeMap
use soroban_upgrades.Base.BTreeMap.{BTreeMap}
use soroban_upgrades.Base.Text.{◌<>◌, show, len, is_blank, any_char, is_control}
use soroban_upgrades.Artifact.{Artifact, version, has_function}
use soroban_upgrades.Schema.{
  Migration, StorageEntry, StorageSchema, show_durability, Durability-discrete,
}
use soroban_upgrades.Report.{Finding, error, warning}
use soroban_upgrades.Checks.External.{External}

-- `*counts.entry(&entry.key).or_insert(0_u32) += 1`
count_key : BTreeMap ℕ → StorageEntry → BTreeMap ℕ
count_key counts entry =
    BTreeMap.insert entry.key (unwrap_or (BTreeMap.get entry.key counts) 0 + 1) counts

abbrev key_counts_from : BTreeMap ℕ → List StorageEntry → BTreeMap ℕ
key_counts_from counts [] = counts
key_counts_from counts (entry ∷ entries) = key_counts_from (count_key counts entry) entries

unfoldable pub key_counts : List StorageEntry → BTreeMap ℕ
unfolding count_key
key_counts entries = key_counts_from [] entries

version_mismatch : (side : String) → StorageSchema → Option String → List Finding
version_mismatch side schema none = []
version_mismatch side schema (some artifact_version) =
    if not (str_eq artifact_version schema.contract_version)
    then error "STO007" "Storage manifest version does not match WASM"
        ("The " <> side <> " manifest declares contract version `" <> schema.contract_version
          <> "`, but its WASM `binver` is `" <> artifact_version <> "`.")
        "Generate and commit the storage manifest from the same source revision and build as the reviewed WASM."
      ∷ []
    else []

duplicate_key : (side : String) → String × ℕ → List Finding
duplicate_key side (key, count) =
    if ltb 1 count
    then error "STO008" "Storage manifest contains duplicate keys"
        ("The "
          <> side
          <> " manifest declares storage key `"
          <> key
          <> "` "
          <> show count
          <> " times, making comparison ambiguous.")
        "Keep exactly one declaration for each logical storage key."
      ∷ []
    else []

-- `migration.strategy` is blank, longer than 128 bytes, or has a control character.
unfoldable pub is_bad_strategy : String → Bool
is_bad_strategy strategy =
    is_blank strategy || ltb 128 (len strategy) || any_char is_control strategy

abbrev entrypoint_findings : (target : Artifact) → StorageEntry → Option String → List Finding
entrypoint_findings target entry none =
    error "STO014" "Migration entrypoint is not declared"
      ("Storage key `" <> entry.key <> "` has migration data without an entrypoint.")
      "Name the exported idempotent migration function in the storage declaration."
    ∷ []
entrypoint_findings target entry (some entrypoint) =
    if not (has_function target entrypoint)
    then error "STO009" "Declared migration entrypoint is missing"
        ("Storage key `" <> entry.key <> "` declares migration entrypoint `" <> entrypoint
          <> "`, but the target WASM specification does not export it.")
        "Export the declared migration function or correct the manifest and rehearse the selected strategy."
      ∷ []
    else []

abbrev migration_of_entry : (target : Artifact) → StorageEntry → Option Migration → List Finding
migration_of_entry target entry none = []
migration_of_entry target entry (some migration) =
    (if is_bad_strategy migration.strategy
      then error "STO013" "Migration strategy is invalid"
          ("Storage key `" <> entry.key
            <> "` has an empty, oversized, or invalid migration strategy.")
          "Use a short reviewed strategy name without control characters."
        ∷ []
      else [])
    ++ entrypoint_findings target entry migration.entrypoint

unfoldable pub migration_findings : (target : Artifact) → StorageEntry → List Finding
unfolding is_bad_strategy
migration_findings target entry = migration_of_entry target entry entry.migration

module _ (x : External) where
  -- One round of the loop over the two sides.
  unfoldable pub validate_manifest : (side : String) → Artifact → StorageSchema → List Finding
  unfolding version_mismatch duplicate_key key_counts
  validate_manifest side artifact schema =
      (if not (schema.format_version == 1)
        then error "STO006" "Unsupported storage manifest format"
            ("The "
              <> side
              <> " manifest uses format version "
              <> show schema.format_version
              <> ". This build supports version 1.")
            "Regenerate the manifest with a supported tool version or upgrade the validator before relying on its result."
          ∷ []
        else [])
      ++ ((if not schema.complete
            then error "STO010" "Storage schema is not marked complete"
                ("The " <> side
                  <> " storage schema does not declare complete coverage of its known storage keys.")
                "Set `complete` to true only after you include every known storage key and value type."
              ∷ []
            else [])
          ++ ((if schema.schema_version == 0
                then error "STO011" "Storage schema version is zero"
                    ("The " <> side <> " storage schema must use a positive schema version.")
                    "Set `schemaVersion` to the version that the contract stores or enforces."
                  ∷ []
                else [])
              ++ ((if is_none (x.parse_version schema.contract_version)
                    then error "STO012" "Storage schema contract version is invalid"
                        ("The " <> side <> " storage schema uses `" <> schema.contract_version
                          <> "` as its contract version.")
                        "Use the exact semantic version from the artifact `binver` metadata."
                      ∷ []
                    else [])
                  ++ (version_mismatch side schema (version artifact)
                      ++ flat_map (duplicate_key side) (key_counts schema.entries)))))

  unfoldable pub validate_schema_manifests :
      (source target : Artifact) (source_schema target_schema : StorageSchema) → List Finding
  unfolding validate_manifest migration_findings
  validate_schema_manifests source target source_schema target_schema =
      validate_manifest "source" source source_schema
      ++ (validate_manifest "target" target target_schema
          ++ flat_map (migration_findings target) target_schema.entries)

-- The map of a schema's entries by key; of entries with one key the last counts.
unfoldable pub entries_by_key : StorageSchema → BTreeMap StorageEntry
entries_by_key schema = BTreeMap.collect (map (λ e. (e.key, e)) schema.entries)

-- `old_entry.durability != new_entry.durability || old_entry.value_type != new_entry.value_type`
unfoldable pub has_new_layout : (old_entry new_entry : StorageEntry) → Bool
has_new_layout old_entry new_entry =
    not (same Durability-discrete old_entry.durability new_entry.durability)
    || not (str_eq old_entry.value_type new_entry.value_type)

abbrev layout_finding :
    (key : String) (old_entry new_entry : StorageEntry) → Option Migration → Finding
layout_finding key old_entry new_entry (some migration) =
    warning "STO002" "Storage layout change requires migration"
      ("Storage key `"
        <> key
        <> "` changes from `"
        <> show_durability old_entry.durability
        <> "/"
        <> old_entry.value_type
        <> "` to `"
        <> show_durability new_entry.durability
        <> "/"
        <> new_entry.value_type
        <> "` and declares `"
        <> migration.strategy
        <> "` migration.")
      "Exercise the migration against a representative pre-upgrade ledger snapshot and verify idempotency."
layout_finding key old_entry new_entry none =
    error "STO003" "Storage layout changes without migration"
      ("Storage key `"
        <> key
        <> "` changes from `"
        <> show_durability old_entry.durability
        <> "/"
        <> old_entry.value_type
        <> "` to `"
        <> show_durability new_entry.durability
        <> "/"
        <> new_entry.value_type
        <> "` with no migration declaration.")
      "Declare an eager, lazy, or versioned migration and test it before generating a signer review plan."

-- One round of the loop over the old entries: whether `layout_changed` is set, and the findings.
unfoldable pub compare_entry :
    (key : String) → StorageEntry → Option StorageEntry → Bool × List Finding
unfolding has_new_layout
compare_entry key old_entry none = (
  true,
  error "STO001" "Storage key removed without a retirement plan"
        ("Storage key `" <> key <> "` is absent from the target schema.")
        "Keep the key readable through the migration window or declare and test a versioned retirement strategy."
      ∷ [],
)
compare_entry key old_entry (some new_entry) =
    if has_new_layout old_entry new_entry
    then (true, layout_finding key old_entry new_entry new_entry.migration ∷ [])
    else (false, [])

unfoldable pub compare_entries : (old new : BTreeMap StorageEntry) → List (Bool × List Finding)
unfolding compare_entry
compare_entries old new =
    map (λ (key, old_entry). compare_entry key old_entry (BTreeMap.get key new)) old

unfoldable pub compare_storage_schemas : (source target : StorageSchema) → List Finding
unfolding compare_entries entries_by_key
compare_storage_schemas source target =
    let rounds = compare_entries (entries_by_key source) (entries_by_key target) in
    flat_map (λ r. r.1) rounds
    ++ (if any (λ r. r.0) rounds && leb target.schema_version source.schema_version
        then error "STO005" "Schema version was not incremented"
            ("Storage changed but target schema version "
              <> show target.schema_version
              <> " is not greater than source schema version "
              <> show source.schema_version
              <> ".")
            "Increment `schemaVersion` and guard migration execution with the on-chain schema version."
          ∷ []
        else [])
