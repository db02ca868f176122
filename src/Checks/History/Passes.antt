-- ===== src/Checks/History/Passes.antt =====
-- When the tests of the schema history push no error.
use soroban_upgrades.Base.{
  String, Bool, true, false, not, ◌||◌, ◌≡◌, ◌≢◌, refl, ◌↔◌, Option, none, some, In, arith, eq_iff,
  same_iff, is_some, is_none, is_some_and, is_none_or, unwrap_or, ◌==◌, Ordering,
}
use soroban_upgrades.Base.Order.{string_ord}
use soroban_upgrades.Base.BTreeMap
use soroban_upgrades.Base.BTreeMap.{BTreeMap}
use soroban_upgrades.Base.BTreeSet
use soroban_upgrades.Base.BTreeSet.{BTreeSet}
use soroban_upgrades.Json.Value.{Value, Value-discrete}
use soroban_upgrades.Artifact.{Artifact, version}
use soroban_upgrades.Schema.{HistoricalField, TypeHistory, SchemaHistory}
use soroban_upgrades.Report.{error, warning}
use soroban_upgrades.Report.Passes.{
  PassesIff, append_passes, unless_passes, each_passes, same_condition, if_passes, none_passes,
  either_passes, error_passes,
}
use soroban_upgrades.Checks.External.{External}
use soroban_upgrades.Checks.History.{
  validate_schema_history, record_findings, lifecycle, parse_retired, is_lt, source_findings,
  source_field, target_findings, target_type, target_record, removed_findings, removed_field,
  field_record, is_reserved, is_retired_in, artifact_struct_fields,
}

-- The releases of a field, as the manifest gives them, are semantic versions, its retirement is not
-- before its first release, and a retired name is reserved.
abbrev pub HasLifecycle :
    (x : External) (is_reserved_name : Bool) → Option x.Version → Option (Option x.Version) → Type 0
HasLifecycle x is_reserved_name none retired = ⊥
HasLifecycle x is_reserved_name (some first) none = ⊥
HasLifecycle x is_reserved_name (some first) (some none) = Unit
HasLifecycle x is_reserved_name (some first) (some (some retired)) =
    (x.compare_versions retired first ≢ Ordering.lt) × (is_reserved_name ≡ true)

-- The history of one type is coherent in itself.
abbrev pub IsCoherent : External → TypeHistory → Type 0
IsCoherent x h =
    ((entry : String × HistoricalField)
      → In entry h.fields
      → HasLifecycle x (BTreeSet.contains entry.0 h.reserved_fields)
          (x.parse_version entry.1.first_seen) (parse_retired x entry.1.retired_in))
    × ((name : String)
        → In name h.reserved_fields
        → is_some_and (BTreeMap.get name h.fields) (λ r. is_some r.retired_in) ≡ true)

is_lt_iff : (x : External) (o : Ordering) → (is_lt x o ≡ false) ↔ (o ≢ Ordering.lt)
is_lt_iff x Ordering.lt = (λ h. cc, λ h. absurd (h refl))
is_lt_iff x Ordering.eq = (λ h k. cc, λ h. refl)
is_lt_iff x Ordering.gt = (λ h k. cc, λ h. refl)

retired_iff :
    (r : Option HistoricalField)
    → (is_none_or r (λ r. is_none r.retired_in) ≡ false)
      ↔ (is_some_and r (λ r. is_some r.retired_in) ≡ true)
retired_iff none = ground arith
retired_iff (some r) = ground arith

lifecycle-passes :
    (x : External) (type_name : String) (h : TypeHistory) (name : String) (first : Option x.Version)
    (retired : Option (Option x.Version))
    → PassesIff
        (lifecycle x type_name h name first retired)
        (HasLifecycle x (BTreeSet.contains name h.reserved_fields) first retired)
unfolding lifecycle error
lifecycle-passes x type_name h name none retired = record { iff = ground arith }
lifecycle-passes x type_name h name (some first) none = record { iff = ground arith }
lifecycle-passes x type_name h name (some first) (some none) = record { iff = ground arith }
lifecycle-passes x type_name h name (some first) (some (some retired)) =
    same_condition
      (let (there, back) = is_lt_iff x (x.compare_versions retired first) in
        (λ (h, k). (there h, ground arith), λ (h, k). (back h, ground arith)))
      (append_passes (unless_passes _ (is_lt x (x.compare_versions retired first)) refl)
        (unless_passes _ (not (BTreeSet.contains name h.reserved_fields)) refl))

record_findings-passes :
    (x : External) (entry : String × TypeHistory)
    → PassesIff (record_findings x entry) (IsCoherent x entry.1)
unfolding record_findings error
record_findings-passes x (type_name, h) =
    append_passes
      (each_passes
        (λ (name, r).
          lifecycle-passes x type_name h name (x.parse_version r.first_seen)
            (parse_retired x r.retired_in))
        h.fields)
      (each_passes
        (λ name. same_condition (retired_iff (BTreeMap.get name h.fields)) (
          unless_passes _ (is_none_or (BTreeMap.get name h.fields) (λ r. is_none r.retired_in))
            refl))
        h.reserved_fields)

-- The history knows a field of the source, with its type.
abbrev pub IsRecorded : Value → Option HistoricalField → Type 0
IsRecorded field_type none = ⊥
IsRecorded field_type (some r) = r.value_type ≡ field_type

source_field-passes :
    (x : External) (source_version type_name name : String) (field_type : Value)
    (r : Option HistoricalField)
    → PassesIff
        (source_field x source_version type_name name field_type r)
        (IsRecorded field_type r)
unfolding error
source_field-passes x source_version type_name name field_type none = record { iff = ground arith }
source_field-passes x source_version type_name name field_type (some r) = record {
  iff = ground (arith, same_iff Value-discrete r.value_type field_type);
}

source_findings-passes :
    (x : External) (history : SchemaHistory) (source_version : String)
    (types : BTreeMap (BTreeMap Value))
    → PassesIff (source_findings x history source_version types) (
        (entry : String × BTreeMap Value)
        → In entry types
        → (field : String × Value) → In field entry.1
        → IsRecorded field.1 (field_record history entry.0 field.0))
unfolding source_findings
source_findings-passes x history source_version types =
    each_passes
      (λ (type_name, fields).
        each_passes
          (λ (name, field_type).
            source_field-passes x source_version type_name name field_type
              (field_record history type_name name))
          fields)
      types

-- The history knows a field of the target: not as retired, with its type, and as first seen in the
-- target's release where the source does not have it.
abbrev pub IsCurrent :
    (target_version : String) (field_type : Value) (is_new : Bool) → Option HistoricalField → Type 0
IsCurrent target_version field_type is_new none = ⊥
IsCurrent target_version field_type is_new (some r) =
    (r.retired_in ≡ none)
    × ((r.value_type ≡ field_type) × (is_new ≡ true → r.first_seen ≡ target_version))

-- `source_types` has a field of a type.
abbrev pub has_field : BTreeMap (BTreeMap Value) → (type_name field_name : String) → Bool
has_field types type_name field_name =
    is_some_and (BTreeMap.get type_name types) (λ fields. BTreeMap.contains_key field_name fields)

module _ (x : External) (target_version : String) (source_types : BTreeMap (BTreeMap Value)) where
  target_record-passes :
      (type_name name : String) (field_type : Value) (is_new : Bool) (r : Option HistoricalField)
      → PassesIff
          (target_record x target_version type_name name field_type is_new r)
          (IsCurrent target_version field_type is_new r)
  unfolding error
  target_record-passes type_name name field_type is_new none = record { iff = ground arith }
  target_record-passes type_name name field_type is_new (some r) = record {
    iff = ground (
      arith,
      same_iff Value-discrete r.value_type field_type,
      eq_iff r.first_seen target_version,
    );
  }

  -- A field of the target has no reserved name, and the history knows it.
  abbrev pub IsAdmitted : TypeHistory → (type_name : String) → String × Value → Type 0
  IsAdmitted h type_name (name, field_type) =
      (BTreeSet.contains name h.reserved_fields ≡ false)
      × IsCurrent target_version field_type (not (has_field source_types type_name name))
          (BTreeMap.get name h.fields)

  abbrev pub AreAdmitted : (type_name : String) → BTreeMap Value → Option TypeHistory → Type 0
  AreAdmitted type_name fields none = ⊥
  AreAdmitted type_name fields (some h) =
      (field : String × Value) → In field fields → IsAdmitted h type_name field

  target_type-passes :
      (type_name : String) (fields : BTreeMap Value) (h : Option TypeHistory)
      → PassesIff
          (target_type x target_version type_name source_types fields h)
          (AreAdmitted type_name fields h)
  unfolding error
  target_type-passes type_name fields none = record { iff = ground arith }
  target_type-passes type_name fields (some h) =
      each_passes
        (λ (name, field_type).
          append_passes (unless_passes _ (BTreeSet.contains name h.reserved_fields) refl) (
            target_record-passes type_name name field_type
              (not (has_field source_types type_name name)) (BTreeMap.get name h.fields)))
        fields

  target_findings-passes :
      (history : SchemaHistory) (target_types : BTreeMap (BTreeMap Value))
      → PassesIff (target_findings x history target_version source_types target_types) (
          (entry : String × BTreeMap Value)
          → In entry target_types
          → AreAdmitted entry.0 entry.1 (BTreeMap.get entry.0 history.types))
  unfolding target_findings
  target_findings-passes history target_types =
      each_passes
        (λ (type_name, fields).
          target_type-passes type_name fields (BTreeMap.get type_name history.types))
        target_types

-- A field that the target no longer has is retired in its release, and its name is reserved.
abbrev pub IsRetired : SchemaHistory → (target_version type_name name : String) → Type 0
IsRetired history target_version type_name name =
    (is_some_and (field_record history type_name name) (is_retired_in target_version) ≡ true)
    × (is_reserved history type_name name ≡ true)

removed_iff :
    (target_version : String) (r : Option HistoricalField) (reserved : Bool)
    → ((is_none_or r (λ r. not (is_retired_in target_version r)) || not reserved) ≡ false)
      ↔ ((is_some_and r (is_retired_in target_version) ≡ true) × (reserved ≡ true))
removed_iff target_version none reserved = ground arith
removed_iff target_version (some r) reserved = ground arith

removed_field-passes :
    (history : SchemaHistory) (target_version type_name name : String)
    → PassesIff
        (removed_field history target_version type_name name)
        (IsRetired history target_version type_name name)
unfolding removed_field error warning
removed_field-passes history target_version type_name name =
    let i =
      removed_iff target_version (field_record history type_name name)
        (is_reserved history type_name name) in
    same_condition i (either_passes _ _ refl refl)

removed_findings-passes :
    (history : SchemaHistory) (target_version : String)
    (source_types target_types : BTreeMap (BTreeMap Value))
    → PassesIff (removed_findings history target_version source_types target_types) (
        (entry : String × BTreeMap Value)
        → In entry source_types
        → (name : String) → In name (BTreeMap.keys entry.1)
        → has_field target_types entry.0 name ≡ false
        → IsRetired history target_version entry.0 name)
unfolding removed_findings
removed_findings-passes history target_version source_types target_types =
    each_passes
      (λ (type_name, fields).
        each_passes
          (λ name.
            same_condition (λ h. h.1, λ h. (λ _. tt, h))
              (if_passes (has_field target_types type_name name) none_passes
                (removed_field-passes history target_version type_name name)))
          (BTreeMap.keys fields))
      source_types

-- What the history must say of the two artifacts, and of itself.
pub record IsContinued (x : External) (source target : Artifact) (history : SchemaHistory)
    : Type 0 where
  pub format : history.format_version ≡ 1
  pub is_complete : history.complete ≡ true
  pub coherent : (entry : String × TypeHistory) → In entry history.types → IsCoherent x entry.1
  pub recorded :
      (entry : String × BTreeMap Value)
      → In entry (artifact_struct_fields source)
      → (field : String × Value) → In field entry.1
      → IsRecorded field.1 (field_record history entry.0 field.0)
  pub admitted :
      (entry : String × BTreeMap Value)
      → In entry (artifact_struct_fields target)
      → AreAdmitted x
          (unwrap_or (version target) "unknown")
          (artifact_struct_fields source)
          entry.0
          entry.1
          (BTreeMap.get entry.0 history.types)
  pub retired :
      (entry : String × BTreeMap Value)
      → In entry (artifact_struct_fields source)
      → (name : String) → In name (BTreeMap.keys entry.1)
      → has_field (artifact_struct_fields target) entry.0 name ≡ false
      → IsRetired history (unwrap_or (version target) "unknown") entry.0 name

continued :
    (x : External) (source target : Artifact) (history : SchemaHistory)
    → (not (history.format_version == 1) ≡ false)
    → ((not history.complete ≡ false)
        × (((entry : String × TypeHistory) → In entry history.types → IsCoherent x entry.1)
            × (((entry : String × BTreeMap Value)
                  → In entry (artifact_struct_fields source)
                  → (field : String × Value) → In field entry.1
                  → IsRecorded field.1 (field_record history entry.0 field.0))
                × (((entry : String × BTreeMap Value)
                      → In entry (artifact_struct_fields target)
                      → AreAdmitted x
                          (unwrap_or (version target) "unknown")
                          (artifact_struct_fields source)
                          entry.0
                          entry.1
                          (BTreeMap.get entry.0 history.types))
                    × ((entry : String × BTreeMap Value)
                        → In entry (artifact_struct_fields source)
                        → (name : String) → In name (BTreeMap.keys entry.1)
                        → has_field (artifact_struct_fields target) entry.0 name ≡ false
                        → IsRetired history (unwrap_or (version target) "unknown") entry.0 name)))))
    → IsContinued x source target history
continued x source target history f (c, (coherent, (recorded, (admitted, retired)))) = record {
  format = ground arith;
  is_complete = ground arith;
  coherent = coherent;
  recorded = recorded;
  admitted = admitted;
  retired = retired;
}

-- For any artifacts and history, the test pushes no error exactly where the history has format 1,
-- is complete and coherent, records the fields of the source with their types, admits the fields
-- of the target, and retires and reserves the fields that the target no longer has.
pub validate_schema_history-passes :
    (x : External) (source target : Artifact) (history : SchemaHistory)
    → PassesIff
        (validate_schema_history x source target history)
        (IsContinued x source target history)
unfolding validate_schema_history error
validate_schema_history-passes x source target history =
    let source_version = unwrap_or (version source) "unknown" in
    let target_version = unwrap_or (version target) "unknown" in
    let source_types = artifact_struct_fields source in
    let target_types = artifact_struct_fields target in
    same_condition
      (
        λ (a, b). continued x source target history (ground arith) (b (ground arith)),
        λ c.
            let e = c.format in
            (
              λ h. absurd (ground arith),
              λ _.
                  let f = c.is_complete in
                  (ground arith, (c.coherent, (c.recorded, (c.admitted, c.retired)))),
            ),
      )
      (if_passes (not (history.format_version == 1)) (error_passes _ refl) (
        append_passes (unless_passes _ (not history.complete) refl) (
          append_passes (each_passes (record_findings-passes x) history.types) (
            append_passes (source_findings-passes x history source_version source_types) (
              append_passes
                (target_findings-passes x target_version source_types history target_types)
                (removed_findings-passes history target_version source_types target_types))))))
