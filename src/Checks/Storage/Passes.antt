-- ===== src/Checks/Storage/Passes.antt =====
-- When the tests of the storage schemas push no error.
use soroban_upgrades.Base.{
  ℕ, ◌≤◌, String, Bool, true, false, not, ◌≡◌, ◌≢◌, refl, ◌↔◌, Option, none, some, In, arith,
  eq_iff, is_some, is_none, ltb, ◌||◌, ◌==◌,
}
use soroban_upgrades.Base.Text.{len, is_blank, all_chars, any_char, is_control, is_whitespace}
use soroban_upgrades.Artifact.{Artifact, version, has_function}
use soroban_upgrades.Schema.{Migration, StorageEntry, StorageSchema}
use soroban_upgrades.Report.{error}
use soroban_upgrades.Report.Passes.{
  PassesIff, append_passes, unless_passes, each_passes, same_condition,
}
use soroban_upgrades.Checks.Storage.Counts.{HasDistinctKeys, distinct_iff}
use soroban_upgrades.Checks.Storage.Rounds.{IsPlanned, rounds_iff, rounds_passes}
use soroban_upgrades.Checks.Storage.Last.{IsLast}
use soroban_upgrades.Checks.External.{External}
use soroban_upgrades.Checks.Storage.{
  validate_manifest, validate_schema_manifests, compare_storage_schemas, compare_entries,
  migration_findings, is_bad_strategy, entries_by_key, version_mismatch, duplicate_key, key_counts,
  migration_of_entry, entrypoint_findings,
}

duplicate_key-passes :
    (side : String) (count : String × ℕ) → PassesIff (duplicate_key side count) (count.1 ≤ 1)
unfolding duplicate_key error
duplicate_key-passes side (key, count) = record { iff = ground arith }

version_mismatch-passes :
    (side : String) (schema : StorageSchema) (artifact_version : Option String)
    → PassesIff
        (version_mismatch side schema artifact_version)
        ((v : String) → artifact_version ≡ some v → v ≡ schema.contract_version)
unfolding version_mismatch error
version_mismatch-passes side schema none = record { iff = (λ _ v h. cc, λ _. refl) }
version_mismatch-passes side schema (some w) = record {
  iff = (
    λ h v e. ground (arith, eq_iff w schema.contract_version),
    λ f. let q = f w refl in ground (arith, eq_iff w schema.contract_version),
  );
}

-- What the manifest of one side must say of itself and of its artifact.
pub record IsSound (x : External) (artifact : Artifact) (schema : StorageSchema) : Type 0 where
  pub format : schema.format_version ≡ 1
  pub is_complete : schema.complete ≡ true
  pub positive : schema.schema_version ≢ 0
  pub is_semver : is_some (x.parse_version schema.contract_version) ≡ true
  pub same_version : (v : String) → version artifact ≡ some v → v ≡ schema.contract_version
  pub distinct : HasDistinctKeys schema

manifest_iff :
    (x : External) (artifact : Artifact) (schema : StorageSchema)
    → ((not (schema.format_version == 1) ≡ false)
        × ((not schema.complete ≡ false)
            × (((schema.schema_version == 0) ≡ false)
                × ((is_none (x.parse_version schema.contract_version) ≡ false)
                    × (((v : String) → version artifact ≡ some v → v ≡ schema.contract_version)
                        × ((count : String × ℕ)
                            → In count (key_counts schema.entries)
                            → count.1 ≤ 1))))))
      ↔ IsSound x artifact schema
manifest_iff x artifact schema = (
  λ (a, (b, (c, (d, (e, f))))). record {
    format = ground arith;
    is_complete = ground arith;
    positive = λ z. absurd (ground arith);
    is_semver = ground arith;
    same_version = e;
    distinct = (distinct_iff schema).0 f;
  },
  λ s.
      let a = s.format in
      let b = s.is_complete in
      let c = s.positive in
      let d = s.is_semver in
      (
        ground arith,
        (
          ground arith,
          (ground arith, (ground arith, (s.same_version, (distinct_iff schema).1 s.distinct))),
        ),
      ),
)

validate_manifest-passes :
    (x : External) (side : String) (artifact : Artifact) (schema : StorageSchema)
    → PassesIff (validate_manifest x side artifact schema) (IsSound x artifact schema)
unfolding validate_manifest error
validate_manifest-passes x side artifact schema = same_condition (manifest_iff x artifact schema) (
    append_passes (unless_passes _ (not (schema.format_version == 1)) refl) (
      append_passes (unless_passes _ (not schema.complete) refl) (
        append_passes (unless_passes _ (schema.schema_version == 0) refl) (
          append_passes (unless_passes _ (is_none (x.parse_version schema.contract_version)) refl) (
            append_passes (version_mismatch-passes side schema (version artifact))
              (each_passes (duplicate_key-passes side) (key_counts schema.entries)))))))

-- A strategy is not blank, is short, and has no control characters.
pub record IsStrategy (strategy : String) : Type 0 where
  pub is_visible : all_chars is_whitespace strategy ≡ false
  pub is_short : len strategy ≤ 128
  pub has_no_control : any_char is_control strategy ≡ false

is_bad_strategy_iff : (strategy : String) → (is_bad_strategy strategy ≡ false) ↔ IsStrategy strategy
unfolding is_bad_strategy is_blank
is_bad_strategy_iff strategy =
    let (f, g) =
      three_tests (all_chars is_whitespace strategy) (any_char is_control strategy)
        (len strategy) in
    (
      λ h. let (a, (b, c)) = f h in record { is_visible = a; is_short = b; has_no_control = c },
      λ s. g (s.is_visible, (s.is_short, s.has_no_control)),
    )
  where
    three_tests :
        (blank control : Bool) (length : ℕ)
        → ((blank || ltb 128 length || control) ≡ false)
          ↔ ((blank ≡ false) × ((length ≤ 128) × (control ≡ false)))
    three_tests blank control length = ground arith

-- A declared migration has a reviewable strategy, and an entrypoint that the target exports.
abbrev pub IsRunnable : (target : Artifact) → Option Migration → Type 0
IsRunnable target none = Unit
IsRunnable target (some migration) =
    IsStrategy migration.strategy
    × ((entrypoint : String) × (migration.entrypoint ≡ some entrypoint)
        × (has_function target entrypoint ≡ true))

entrypoint_findings-passes :
    (target : Artifact) (entry : StorageEntry) (name : Option String)
    → PassesIff
        (entrypoint_findings target entry name)
        ((entrypoint : String) × (name ≡ some entrypoint) × (has_function target entrypoint ≡ true))
unfolding error
entrypoint_findings-passes target entry none = record { iff = (λ h. cc, λ (n, e, h). cc) }
entrypoint_findings-passes target entry (some name) = record {
  iff = (λ h. (name, refl, ground arith), λ (n, e, h). ground arith);
}

migration_findings-passes :
    (target : Artifact) (entry : StorageEntry) (migration : Option Migration)
    → PassesIff (migration_of_entry target entry migration) (IsRunnable target migration)
unfolding error
migration_findings-passes target entry none = record { iff = ground arith }
migration_findings-passes target entry (some migration) =
    append_passes
      (same_condition (is_bad_strategy_iff migration.strategy)
        (unless_passes _ (is_bad_strategy migration.strategy) refl))
      (entrypoint_findings-passes target entry migration.entrypoint)

-- For any artifacts and schemas, the tests of the manifests push no error exactly where both
-- manifests are sound and each migration that the target's schema declares can be run.
pub validate_schema_manifests-passes :
    (x : External) (source target : Artifact) (from to : StorageSchema)
    → PassesIff (validate_schema_manifests x source target from to) (
        IsSound x source from
        × (IsSound x target to
            × ((entry : StorageEntry) → In entry to.entries → IsRunnable target entry.migration)))
unfolding validate_schema_manifests migration_findings
validate_schema_manifests-passes x source target from to =
    append_passes (validate_manifest-passes x "source" source from) (
      append_passes (validate_manifest-passes x "target" target to)
        (each_passes (λ entry. migration_findings-passes target entry entry.migration) to.entries))

-- For any two schemas, the comparison pushes no error exactly where, for the last entry of each key
-- of the source's schema, the last entry of that key in the target's is there, and has the same
-- durability and value type, or a migration together with a greater schema version of the target.
-- (Where keys are not repeated, the last entry of a key is its only one.)
pub compare_storage_schemas-passes :
    (source target : StorageSchema)
    → PassesIff
        (compare_storage_schemas source target)
        ((old : StorageEntry) → IsLast old source.entries → IsPlanned source target old)
unfolding compare_storage_schemas compare_entries error
compare_storage_schemas-passes source target =
    same_condition (rounds_iff source target)
      (rounds_passes source target _ (entries_by_key source) refl)
