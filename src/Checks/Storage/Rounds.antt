-- ===== src/Checks/Storage/Rounds.antt =====
-- The rounds of `compare_storage_schemas`: what becomes of an entry of the source's schema.
use soroban_upgrades.Base.{
  ◌<◌, String, Bool, true, false, ◌&&◌, ◌≡◌, refl, sym, subst, ◌∙◌, ◌↔◌, ◌⊎◌, same_iff, inl, inr,
  Option, none, some, List, [], ◌∷◌, ◌++◌, In, any, map, flat_map, any-false, any-false_iff,
  flat_map-map, any-map, arith, eq_iff, is_some, Bool-cases, leb, if◌then◌else◌,
}
use soroban_upgrades.Base.BTreeMap
use soroban_upgrades.Base.BTreeMap.{BTreeMap}
use soroban_upgrades.Schema.{Migration, StorageEntry, StorageSchema, Durability-discrete}
use soroban_upgrades.Report.{Finding, error, warning, blocks, is_error}
use soroban_upgrades.Report.Passes.{
  PassesIff, append_passes, unless_passes, each_passes, same_condition,
}
use soroban_upgrades.Checks.Storage.Last.{IsLast, get-entries_by_key, In-entries_by_key}
use soroban_upgrades.Checks.Storage.{compare_entry, has_new_layout, entries_by_key, layout_finding}

-- The value of an entry is stored as before.
abbrev pub KeepsLayout : (old new : StorageEntry) → Type 0
KeepsLayout old new = (old.durability ≡ new.durability) × (old.value_type ≡ new.value_type)

has_new_layout_iff :
    (old new : StorageEntry) → (has_new_layout old new ≡ false) ↔ KeepsLayout old new
unfolding has_new_layout
has_new_layout_iff old new = ground (
  arith,
  same_iff Durability-discrete old.durability new.durability,
  eq_iff old.value_type new.value_type,
)

-- What becomes of an entry of the source's schema: the last entry of its key in the target's keeps
-- its layout, or has a migration with a greater schema version.
abbrev pub IsPlanned : (source target : StorageSchema) → StorageEntry → Type 0
IsPlanned source target old =
    (new : StorageEntry) × IsLast new target.entries
    × (new.key ≡ old.key)
    × (KeepsLayout old new
        ⊎ ((is_some new.migration ≡ true) × (source.schema_version < target.schema_version)))

module _ (source target : StorageSchema) where
  -- What one round finds in the target's map, and asks of it.
  abbrev IsAllowed : StorageEntry → Option StorageEntry → Type 0
  IsAllowed old none = ⊥
  IsAllowed old (some new) =
      has_new_layout old new ≡ true
      → (is_some new.migration ≡ true) × (source.schema_version < target.schema_version)

  abbrev round : String × StorageEntry → Bool × List Finding
  round (key, old) = compare_entry key old (BTreeMap.get key (entries_by_key target))

  -- What one round asks: a change is with a greater schema version, and pushes no error.
  abbrev RoundPasses : Bool × List Finding → Type 0
  RoundPasses r =
      (r.0 ≡ true → source.schema_version < target.schema_version) × (blocks r.1 ≡ false)

  layout_change-passes :
      (key : String) (old new : StorageEntry) (is_new : Bool) (migration : Option Migration)
      → RoundPasses
          (if is_new then (true, layout_finding key old new migration ∷ []) else (false, []))
        ↔ (is_new ≡ true
            → (is_some migration ≡ true) × (source.schema_version < target.schema_version))
  unfolding error warning
  layout_change-passes key old new true none = ground arith
  layout_change-passes key old new true (some m) = ground arith
  layout_change-passes key old new false migration = ground arith

  compare_entry-passes :
      (key : String) (old : StorageEntry) (new : Option StorageEntry)
      → RoundPasses (compare_entry key old new) ↔ IsAllowed old new
  unfolding compare_entry error
  compare_entry-passes key old none = ground arith
  compare_entry-passes key old (some new) =
      layout_change-passes key old new (has_new_layout old new) new.migration

  any_change_iff :
      (es : BTreeMap StorageEntry)
      → ((any (λ e. (round e).0) es && leb target.schema_version source.schema_version) ≡ false) ↔ (
          (e : String × StorageEntry)
          → In e es
          → (round e).0 ≡ true
          → source.schema_version < target.schema_version)
  any_change_iff es = elim (Bool-cases (leb target.schema_version source.schema_version)) [
    | inl stays ↦ (
      λ h e m c. let miss = any-false (λ e. (round e).0) es e (ground arith) m in cc,
      λ h.
          let miss = (any-false_iff (λ e. (round e).0) es).1 (λ e m. elim (Bool-cases (round e).0) [
            | inl c ↦ let lt = h e m c in absurd (ground arith)
            | inr c ↦ c
          ]) in
          ground arith,
    )
    | inr grows ↦ (λ h e m c. ground arith, λ h. ground arith)
  ]

  pub rounds_passes :
      (f : Finding) (es : BTreeMap StorageEntry)
      → is_error f ≡ true
      → PassesIff
          (flat_map (λ r. r.1) (map round es)
            ++ (if any (λ r. r.0) (map round es) && leb target.schema_version source.schema_version
                then f ∷ []
                else []))
          ((e : String × StorageEntry)
            → In e es
            → IsAllowed e.1 (BTreeMap.get e.0 (entries_by_key target)))
  rounds_passes f es h =
      let of_entry : (e : String × StorageEntry)
          → RoundPasses (round e) ↔ IsAllowed e.1 (BTreeMap.get e.0 (entries_by_key target)) =
        λ e. compare_entry-passes e.0 e.1 (BTreeMap.get e.0 (entries_by_key target)) in
      rw (flat_map-map (λ (r : Bool × List Finding). r.1) round es) (
        rw (any-map (λ (r : Bool × List Finding). r.0) round es) (
          same_condition
            (
              λ (h, k) e m. (of_entry e).0 (k e m, h e m),
              λ f. (λ e m. ((of_entry e).1 (f e m)).1, λ e m. ((of_entry e).1 (f e m)).0),
            )
            (append_passes (each_passes (λ e. record { iff = (λ h. h, λ h. h) }) es)
              (same_condition (any_change_iff es) (unless_passes f _ h)))))

  IsAllowed-iff :
      (old new : StorageEntry)
      → IsAllowed old (some new) ↔ (
          KeepsLayout old new
          ⊎ ((is_some new.migration ≡ true) × (source.schema_version < target.schema_version)))
  IsAllowed-iff old new =
      let (f, g) = has_new_layout_iff old new in
      elim (Bool-cases (has_new_layout old new)) [
        | inl e ↦ (
          λ h. inr (h e),
          λ p _. elim p [ inl k ↦ absurd (false_true (sym (g k) ∙ e)) | inr m ↦ m ],
        )
        | inr e ↦ (λ h. inl (f e), λ p q. absurd (false_true (sym e ∙ q)))
      ]
    where
      false_true : false ≡ true → ⊥
      false_true h = cc

  IsPlanned-iff :
      (old : StorageEntry)
      → IsAllowed old (BTreeMap.get old.key (entries_by_key target)) ↔ IsPlanned source target old
  IsPlanned-iff old = (there (BTreeMap.get old.key (entries_by_key target)) refl, back)
    where
      there :
          (found : Option StorageEntry)
          → BTreeMap.get old.key (entries_by_key target) ≡ found
          → IsAllowed old found
          → IsPlanned source target old
      there none e h = absurd h
      there (some new) e h =
          let (last, k) = (get-entries_by_key old.key new target).0 e in
          (new, last, k, (IsAllowed-iff old new).0 h)

      back :
          IsPlanned source target old → IsAllowed old (BTreeMap.get old.key (entries_by_key target))
      back (new, last, k, p) =
          subst (IsAllowed old) (sym ((get-entries_by_key old.key new target).1 (last, k)))
            ((IsAllowed-iff old new).1 p)

  pub rounds_iff :
      ((e : String × StorageEntry)
        → In e (entries_by_key source)
        → IsAllowed e.1 (BTreeMap.get e.0 (entries_by_key target)))
      ↔ ((old : StorageEntry) → IsLast old source.entries → IsPlanned source target old)
  rounds_iff = (
    λ h old last.
        (IsPlanned-iff old).0
          (h (old.key, old) ((In-entries_by_key old.key old source).1 (last, refl))),
    λ h e m.
        let (last, k) = (In-entries_by_key e.0 e.1 source).0 m in
        subst (λ n. IsAllowed e.1 (BTreeMap.get n (entries_by_key target))) k
          ((IsPlanned-iff e.1).1 (h e.1 last)),
  )
