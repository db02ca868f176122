-- ===== src/Impact/Selected.antt =====
-- Which boundaries and which types the analysis of impacts selects.
use soroban_upgrades.Base.{
  String, ◌≡◌, ◌≢◌, refl, sym, ap, subst, ◌∙◌, ◌↔◌, ◌⊎◌, inl, inr, cons?, Bool-cases, Bool, true,
  false, not, List, [], ◌∷◌, In, Option, none, some, filter, filter_map, same, same_iff, arith,
  if◌then◌else◌,
}
use soroban_upgrades.Base.Order.{string_ord}
use soroban_upgrades.Base.BTreeMap
use soroban_upgrades.Base.BTreeSet
use soroban_upgrades.Json.Value.{Value, Value-discrete}
use soroban_upgrades.Artifact.{InterfaceEntry, PublicTypeBoundary, Artifact, boundary_ord}
use soroban_upgrades.Impact.{
  redefined, changed_type, changed_types, same_canonical, retained_boundaries,
}

In-filter :
    {A : Type 0} (p : A → Bool) (a : A) (xs : List A)
    → In a (filter p xs) ↔ (In a xs × (p a ≡ true))
In-filter p a [] = ground arith
In-filter p a (x ∷ xs) = ground (arith, In-filter p a xs)

some_inj : {A : Type 0} {a b : A} → some a ≡ some b → a ≡ b
some_inj h = cc

In-cons? :
    {B : Type 0} (o : Option B) (b : B) (ys : List B) → In b (cons? o ys) ↔ ((o ≡ some b) ⊎ In b ys)
In-cons? none b ys = (λ m. inr m, λ m. elim m [ inl e ↦ cc | inr n ↦ n ])
In-cons? (some c) b ys = (
  λ m. elim m [ inl e ↦ inl (ap some (sym e)) | inr n ↦ inr n ],
  λ m. elim m [ inl e ↦ inl (sym (some_inj e)) | inr n ↦ inr n ],
)

In-filter_map :
    {A B : Type 0} (f : A → Option B) (b : B) (xs : List A)
    → In b (filter_map f xs) ↔ ((a : A) × In a xs × (f a ≡ some b))
In-filter_map f b [] = (λ m. absurd m, λ (a, m, e). absurd m)
In-filter_map f b (x ∷ xs) = (
  λ m. elim ((In-cons? (f x) b (filter_map f xs)).0 m) [
    | inl e ↦ (x, inl refl, e)
    | inr n ↦ let (a, k, e) = (In-filter_map f b xs).0 n in (a, inr k, e)
  ],
  λ (a, m, e). (In-cons? (f x) b (filter_map f xs)).1 (elim m [
    | inl q ↦ inl (subst (λ z. f z ≡ some b) q e)
    | inr k ↦ inr ((In-filter_map f b xs).1 (a, k, e))
  ]),
)

-- The specification that an artifact gives of a function, where it has it.
abbrev pub specified : Option InterfaceEntry → Option Value
specified none = none
specified (some e) = some e.canonical

same_canonical_iff :
    (a b : Option InterfaceEntry) → (same_canonical a b ≡ true) ↔ (specified a ≡ specified b)
unfolding same_canonical
same_canonical_iff none none = ground arith
same_canonical_iff none (some b) = (λ h. cc, λ h. cc)
same_canonical_iff (some a) none = (λ h. cc, λ h. cc)
same_canonical_iff (some a) (some b) =
    let (f, g) = same_iff Value-discrete a.canonical b.canonical in
    (λ h. ap some (f h), λ h. g (some_inj h))

none-some : {A : Type 0} {a : A} → none ≡ some a → ⊥
none-some h = cc

true-false : true ≡ false → ⊥
true-false h = cc

module _ (source target : Artifact) where
  -- A boundary of both artifacts, of a function that both specify alike.
  pub record IsRetained (boundary : PublicTypeBoundary) : Type 0 where
    pub in_source : In boundary source.public_type_boundaries
    pub in_target : In boundary target.public_type_boundaries
    pub is_unchanged :
        specified (BTreeMap.get boundary.function source.functions)
        ≡ specified (BTreeMap.get boundary.function target.functions)

  -- A type that both artifacts define, with different specifications.
  pub record IsChanged (name : String) : Type 0 where
    pub before : InterfaceEntry
    pub is_defined : In (name, before) source.user_types
    pub after : InterfaceEntry
    pub is_redefined : BTreeMap.get name target.user_types ≡ some after
    pub differs : before.canonical ≢ after.canonical

  pub In-retained_boundaries :
      (b : PublicTypeBoundary) → In b (retained_boundaries source target) ↔ IsRetained b
  unfolding retained_boundaries
  In-retained_boundaries b =
      let from = BTreeSet.collect source.public_type_boundaries in
      let to = BTreeSet.collect target.public_type_boundaries in
      let (f, g) = In-filter _ b (BTreeSet.intersection from to) in
      let (h, k) =
        same_canonical_iff (BTreeMap.get b.function source.functions)
          (BTreeMap.get b.function target.functions) in
      let (i, j) = BTreeSet.In-intersection b from to in
      let (c, d) = BTreeSet.In-collect b source.public_type_boundaries in
      let (c', d') = BTreeSet.In-collect b target.public_type_boundaries in
      (
        λ m.
            let (both, e) = f m in
            let (s, t) = i both in record { in_source = c s; in_target = c' t; is_unchanged = h e },
        λ r. g (j (d r.in_source, d' r.in_target), k r.is_unchanged),
      )

  redefined_iff :
      (key name : String) (before : InterfaceEntry) (o : Option InterfaceEntry)
      → (redefined key before o ≡ some name) ↔ (
          (key ≡ name)
          × ((after : InterfaceEntry) × (o ≡ some after) × (before.canonical ≢ after.canonical)))
  unfolding redefined
  redefined_iff key name before none = (λ h. cc, λ (q, (after, e, d)). cc)
  redefined_iff key name before (some after) =
      let (f, g) = same_iff Value-discrete after.canonical before.canonical in
      elim (Bool-cases (same Value-discrete after.canonical before.canonical)) [
        | inl e ↦ (
          λ h. absurd (none-some (sym (ap (λ b. if not b then some key else none) e) ∙ h)),
          λ (q, (a, i, d)).
              absurd (d (sym (f e) ∙ ap (λ (z : InterfaceEntry). z.canonical) (some_inj i))),
        )
        | inr e ↦ (
          λ h. (
            some_inj (sym (ap (λ b. if not b then some key else none) e) ∙ h),
            (after, refl, λ q. true-false (sym (g (sym q)) ∙ e)),
          ),
          λ (q, (a, i, d)). ap (λ b. if not b then some key else none) e ∙ ap some q,
        )
      ]

  changed_type_iff :
      (e : String × InterfaceEntry) (name : String)
      → (changed_type target e ≡ some name) ↔ (
          (e.0 ≡ name)
          × ((after : InterfaceEntry) × (BTreeMap.get e.0 target.user_types ≡ some after)
              × (e.1.canonical ≢ after.canonical)))
  unfolding changed_type
  changed_type_iff (key, before) name =
      redefined_iff key name before (BTreeMap.get key target.user_types)

  pub In-changed_types : (name : String) → In name (changed_types source target) ↔ IsChanged name
  unfolding changed_types
  In-changed_types name =
      let (f, g) = In-filter_map (changed_type target) name source.user_types in
      let (c, d) = BTreeSet.In-collect name (filter_map (changed_type target) source.user_types) in
      (
        λ m.
            let (e, k, h) = f (c m) in
            let (q, (after, found, differs)) = (changed_type_iff e name).0 h in
            record {
              before = e.1;
              is_defined = subst (λ n. In (n, e.1) source.user_types) q k;
              after = after;
              is_redefined = subst (λ n. BTreeMap.get n target.user_types ≡ some after) q found;
              differs = differs;
            },
        λ r. d (
            g (
              (name, r.before),
              r.is_defined,
              (changed_type_iff (name, r.before) name).1
                  (refl, (r.after, r.is_redefined, r.differs)),
            )),
      )
