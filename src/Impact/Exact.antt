-- ===== src/Impact/Exact.antt =====
-- `routes_to_type` answers with the routes of the specification.
use soroban_upgrades.Base.{
  String, ◌≡◌, refl, sym, subst, inl, inr, true, false, List, [], ◌∷◌, In, arith, Bool-cases, suc,
  some,
}
use soroban_upgrades.Base.BTreeMap
use soroban_upgrades.Artifact.{TypeReference, Artifact}
use soroban_upgrades.Report.{ImpactStep}
use soroban_upgrades.Impact.{start, loop, routes_to_type, max_public_impact_steps}
use soroban_upgrades.Impact.Limits.{loop_rule, initial, routes-eq-loop}
use soroban_upgrades.Impact.Routes.{IsRoute, IsExact, IsExact-Round, IsExact-start}

module _ (artifact : Artifact) (root_type target_type : String) where
  abbrev references : List TypeReference
  references = artifact.type_references

  -- A root type that the artifact does not define has no routes.
  no_routes :
      BTreeMap.contains_key root_type artifact.user_types ≡ false
      → (routes_to_type artifact root_type target_type).0 ≡ []
  unfolding loop
  no_routes absent =
      let answer = routes_to_type artifact root_type target_type in
      let e = routes-eq-loop artifact root_type target_type answer.0 answer.1 refl in
      let nothing : initial artifact root_type ≡ [] = rw absent in
      let ended : loop references target_type (suc max_public_impact_steps) 0 [] [] ≡ some answer =
        subst (λ x. loop references target_type (suc max_public_impact_steps) 0 x [] ≡ some answer)
          nothing e in
      ground arith

  exact :
      BTreeMap.contains_key root_type artifact.user_types ≡ true
      → ((r : List ImpactStep)
          → In r (routes_to_type artifact root_type target_type).0
          → IsRoute references target_type root_type r)
        × ((routes_to_type artifact root_type target_type).1 ≡ false
            → (r : List ImpactStep) → IsRoute references target_type root_type r
            → In r (routes_to_type artifact root_type target_type).0)
  exact defined =
      let answer = routes_to_type artifact root_type target_type in
      let e = routes-eq-loop artifact root_type target_type answer.0 answer.1 refl in
      let begin : initial artifact root_type ≡ start root_type ∷ [] = rw defined in
      let (left, final, empty) =
        loop_rule references target_type (IsExact references target_type root_type)
          (λ p rest result pending result' _ _ r h.
            IsExact-Round references target_type root_type p rest result pending result' h r)
          (suc max_public_impact_steps) 0 (initial artifact root_type) [] answer.0 answer.1
          (subst (λ x. IsExact references target_type root_type x []) (sym begin)
            (IsExact-start references target_type root_type))
          e in
      (
        final.recorded,
        λ all r route. elim (final.complete r route) [
          | inl found ↦ found
          | inr (q, steps, m, leads, eq) ↦ absurd (subst (In q) (empty all) m)
        ],
      )

  -- Each list of steps that the search finds is a route from the root to the target without
  -- repetition, and the artifact defines the root; and where the limit flag is not set and the
  -- root is defined, every such route is found.
  pub routes_to_type_exact :
      ((r : List ImpactStep)
        → In r (routes_to_type artifact root_type target_type).0
        → (BTreeMap.contains_key root_type artifact.user_types ≡ true)
          × IsRoute references target_type root_type r)
      × ((routes_to_type artifact root_type target_type).1 ≡ false
          → BTreeMap.contains_key root_type artifact.user_types ≡ true
          → (r : List ImpactStep) → IsRoute references target_type root_type r
          → In r (routes_to_type artifact root_type target_type).0)
  routes_to_type_exact = (
    λ r m. elim (Bool-cases (BTreeMap.contains_key root_type artifact.user_types)) [
      | inl defined ↦ (defined, (exact defined).0 r m)
      | inr absent ↦ absurd (subst (In r) (no_routes absent) m)
    ],
    λ all defined. (exact defined).1 all,
  )
