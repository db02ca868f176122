-- ===== src/Impact/Trace.antt =====
-- `trace_public_impacts` answers with the routes that both specifications have.
use soroban_upgrades.Base.{
  String, ◌≡◌, refl, ap, sym, subst, ◌∙◌, ◌↔◌, inl, inr, Bool, true, false, ◌||◌, List, [], ◌∷◌, In,
  In-append, map, flat_map, any, any-false, any-flat_map, any-map, arith,
}
use soroban_upgrades.Base.Order.{string_ord, list_ord}
use soroban_upgrades.Base.BTreeMap
use soroban_upgrades.Base.BTreeSet
use soroban_upgrades.Artifact.{PublicTypeBoundary, Artifact}
use soroban_upgrades.Report.{ImpactStep, PublicImpact, fact, unknown, step_ord, impact_ord}
use soroban_upgrades.Impact.{
  routes_to_type, changed_types, retained_boundaries, impacts_of_pair, impact_of,
  trace_public_impacts,
}
use soroban_upgrades.Impact.Routes.{IsRoute}
use soroban_upgrades.Impact.Selected.{
  IsRetained, IsChanged, In-retained_boundaries, In-changed_types,
}
use soroban_upgrades.Impact.Exact.{routes_to_type_exact}

In-flat_map :
    {A B : Type 0} (f : A → List B) (b : B) (xs : List A)
    → In b (flat_map f xs) ↔ ((a : A) × In a xs × In b (f a))
In-flat_map f b [] = (λ m. absurd m, λ (a, m, n). absurd m)
In-flat_map f b (x ∷ xs) = (
  λ m. elim ((In-append b (f x) (flat_map f xs)).0 m) [
    | inl n ↦ (x, inl refl, n)
    | inr n ↦ let (a, k, l) = (In-flat_map f b xs).0 n in (a, inr k, l)
  ],
  λ (a, m, n). elim m [
    | inl e ↦ (In-append b (f x) (flat_map f xs)).1 (inl (subst (λ z. In b (f z)) e n))
    | inr k ↦ (In-append b (f x) (flat_map f xs)).1 (inr ((In-flat_map f b xs).1 (a, k, n)))
  ],
)

In-map :
    {A B : Type 0} (f : A → B) (b : B) (xs : List A)
    → In b (map f xs) ↔ ((a : A) × In a xs × (b ≡ f a))
In-map f b [] = (λ m. absurd m, λ (a, m, n). absurd m)
In-map f b (x ∷ xs) = (
  λ m. elim m [
    | inl e ↦ (x, inl refl, e)
    | inr n ↦ let (a, k, l) = (In-map f b xs).0 n in (a, inr k, l)
  ],
  λ (a, m, n). elim m [
    | inl e ↦ inl (subst (λ z. b ≡ f z) e n)
    | inr k ↦ inr ((In-map f b xs).1 (a, k, n))
  ],
)

or_false : (a b : Bool) → (a || b) ≡ false → (a ≡ false) × (b ≡ false)
or_false a b h = ground arith

module _ (source target : Artifact) where
  abbrev routes : Artifact → PublicTypeBoundary → String → List (List ImpactStep)
  routes artifact boundary changed = (routes_to_type artifact boundary.root_type changed).0

  -- A retained boundary, a changed type, and a list of steps that both artifacts' searches find.
  abbrev IsFound : PublicImpact → Type 0
  IsFound p =
      In p.boundary (retained_boundaries source target)
      × In p.changed_type (changed_types source target)
      × In p.steps (routes source p.boundary p.changed_type)
      × In p.steps (routes target p.boundary p.changed_type)
      × (p ≡ impact_of p.changed_type p.boundary p.steps)

  abbrev pairs_of : PublicTypeBoundary → List (List PublicImpact × Bool)
  pairs_of boundary = map (impacts_of_pair source target boundary) (changed_types source target)

  pair_iff :
      (boundary : PublicTypeBoundary) (changed : String) (p : PublicImpact)
      → In p (impacts_of_pair source target boundary changed).0 ↔ (
          (steps : List ImpactStep) × In steps (routes source boundary changed)
          × In steps (routes target boundary changed)
          × (p ≡ impact_of changed boundary steps))
  unfolding impacts_of_pair
  pair_iff boundary changed p =
      let from = routes source boundary changed in
      let to = routes target boundary changed in
      let (f, g) = In-map (impact_of changed boundary) p (BTreeSet.intersection from to) in
      (
        λ m.
            let (s, k, e) = f m in
            let (a, b) = (BTreeSet.In-intersection s from to).0 k in (s, a, b, e),
        λ (s, a, b, e). g (s, (BTreeSet.In-intersection s from to).1 (a, b), e),
      )

  trace_iff : (p : PublicImpact) → In p (trace_public_impacts source target).0 ↔ IsFound p
  unfolding trace_public_impacts
  trace_iff p = (there, back)
    where
      pairs : List (List PublicImpact × Bool)
      pairs = flat_map pairs_of (retained_boundaries source target)

      there : In p (BTreeSet.collect (flat_map (λ q. q.0) pairs)) → IsFound p
      there m =
          let (q, n, k) =
            (In-flat_map (λ (q : List PublicImpact × Bool). q.0) p pairs).0
              ((BTreeSet.In-collect p _).0 m) in
          let (boundary, b, l) = (In-flat_map pairs_of q (retained_boundaries source target)).0 n in
          let (changed, c, e) =
            (In-map (impacts_of_pair source target boundary) q (changed_types source target)).0 l in
          let (s, from, to, same) =
            (pair_iff boundary changed p).0
              (subst (λ (z : List PublicImpact × Bool). In p z.0) e k) in
          subst IsFound (sym same) (b, c, from, to, refl)

      back : IsFound p → In p (BTreeSet.collect (flat_map (λ q. q.0) pairs))
      back (b, c, from, to, same) =
          let q = impacts_of_pair source target p.boundary p.changed_type in
          (BTreeSet.In-collect p _).1 (
            (In-flat_map (λ (q : List PublicImpact × Bool). q.0) p pairs).1 (
              q,
              (In-flat_map pairs_of q (retained_boundaries source target)).1 (
                p.boundary,
                b,
                (In-map (impacts_of_pair source target p.boundary) q
                      (changed_types source target)).1
                    (p.changed_type, c, refl),
              ),
              (pair_iff p.boundary p.changed_type p).1 (p.steps, from, to, same),
            ))

  -- The artifact defines the root type of the boundary, and the steps are a route from it to the
  -- changed type without repetition.
  abbrev pub HasRoute : Artifact → PublicImpact → Type 0
  HasRoute artifact p =
      (BTreeMap.contains_key p.boundary.root_type artifact.user_types ≡ true)
      × IsRoute artifact.type_references p.changed_type p.boundary.root_type p.steps

  -- What an impact is, of the two artifacts alone: its boundary is in both, of a function that both
  -- specify alike; its type is defined in both, with different specifications; its steps are one
  -- route in both; and it claims the structure, not the runtime.
  pub record IsImpact (p : PublicImpact) : Type 0 where
    pub is_retained : IsRetained source target p.boundary
    pub is_changed : IsChanged source target p.changed_type
    pub in_source : HasRoute source p
    pub in_target : HasRoute target p
    pub is_fact : p.structural_reachability ≡ fact
    pub is_unknown : p.runtime_compatibility ≡ unknown

  impact_of_iff :
      (p : PublicImpact)
      → (p ≡ impact_of p.changed_type p.boundary p.steps)
        ↔ ((p.structural_reachability ≡ fact) × (p.runtime_compatibility ≡ unknown))
  impact_of_iff p = (
    λ e. (
      ap (λ (z : PublicImpact). z.structural_reachability) e,
      ap (λ (z : PublicImpact). z.runtime_compatibility) e,
    ),
    λ (e, u). λ i. record p { structural_reachability = e i; runtime_compatibility = u i },
  )

  pair_complete :
      (boundary : PublicTypeBoundary) (changed : String)
      → (impacts_of_pair source target boundary changed).1 ≡ false
      → ((routes_to_type source boundary.root_type changed).1 ≡ false)
        × ((routes_to_type target boundary.root_type changed).1 ≡ false)
  unfolding impacts_of_pair
  pair_complete boundary changed h =
      or_false (routes_to_type source boundary.root_type changed).1
        (routes_to_type target boundary.root_type changed).1 h

  flags_clear :
      (trace_public_impacts source target).1 ≡ false
      → (boundary : PublicTypeBoundary) → In boundary (retained_boundaries source target)
      → (changed : String) → In changed (changed_types source target)
      → (impacts_of_pair source target boundary changed).1 ≡ false
  unfolding trace_public_impacts
  flags_clear h boundary b changed c =
      let flag = λ (q : List PublicImpact × Bool). q.1 in
      let at_boundary =
        any-false (λ boundary. any flag (pairs_of boundary)) (retained_boundaries source target)
          boundary (sym (any-flat_map flag pairs_of (retained_boundaries source target)) ∙ h) b in
      any-false (λ changed. flag (impacts_of_pair source target boundary changed))
        (changed_types source target) changed
        (sym (any-map flag (impacts_of_pair source target boundary) (changed_types source target))
          ∙ at_boundary)
        c

  -- For any two artifacts, each impact that is reported is of a boundary that both have, of a
  -- function that both specify alike, and of a type that both define differently, with one route
  -- without repetition in both specifications; and where no limit was met, every such impact is
  -- reported.
  pub trace_public_impacts_exact :
      (p : PublicImpact)
      → (In p (trace_public_impacts source target).0 → IsImpact p)
        × ((trace_public_impacts source target).1 ≡ false
            → IsImpact p
            → In p (trace_public_impacts source target).0)
  trace_public_impacts_exact p = (reported, reports)
    where
      reported : In p (trace_public_impacts source target).0 → IsImpact p
      reported m =
          let (b, c, from, to, same) = (trace_iff p).0 m in
          let (e, u) = (impact_of_iff p).0 same in
          record {
            is_retained = (In-retained_boundaries source target p.boundary).0 b;
            is_changed = (In-changed_types source target p.changed_type).0 c;
            in_source =
                (routes_to_type_exact source p.boundary.root_type p.changed_type).0 p.steps from;
            in_target =
                (routes_to_type_exact target p.boundary.root_type p.changed_type).0 p.steps to;
            is_fact = e;
            is_unknown = u;
          }

      reports :
          (trace_public_impacts source target).1 ≡ false
          → IsImpact p
          → In p (trace_public_impacts source target).0
      reports clear r =
          let b = (In-retained_boundaries source target p.boundary).1 r.is_retained in
          let c = (In-changed_types source target p.changed_type).1 r.is_changed in
          let (ds, rs) = r.in_source in
          let (dt, rt) = r.in_target in
          let (fs, ft) =
            pair_complete p.boundary p.changed_type
              (flags_clear clear p.boundary b p.changed_type c) in
          (trace_iff p).1 (
            b,
            c,
            (routes_to_type_exact source p.boundary.root_type p.changed_type).1 fs ds p.steps rs,
            (routes_to_type_exact target p.boundary.root_type p.changed_type).1 ft dt p.steps rt,
            (impact_of_iff p).1 (r.is_fact, r.is_unknown),
          )
