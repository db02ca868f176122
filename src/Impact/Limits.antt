-- ===== src/Impact/Limits.antt =====
-- The search ends within its limits.
use soroban_upgrades.Base.{
  ℕ, zero, suc, ◌+◌, ◌≤◌, ◌<◌, String, ◌≡◌, ◌≢◌, refl, sym, subst, ◌∙◌, ap, ◌⊎◌, inl, inr, Bool,
  true, false, List, [], ◌∷◌, In, length, arith, some, none, Option-cases, if◌then◌else◌,
}
use soroban_upgrades.Base.Order.{string_ord, list_ord}
use soroban_upgrades.Base.BTreeMap
use soroban_upgrades.Base.BTreeSet
use soroban_upgrades.Base.BTreeSet.{BTreeSet}
use soroban_upgrades.Artifact.{TypeReference, Artifact}
use soroban_upgrades.Report.{ImpactStep, step_ord}
use soroban_upgrades.Impact.{
  Pending, Next, limited, go, round, loop, start, routes_to_type, max_public_impact_depth,
  max_public_impact_paths, max_public_impact_steps,
}
use soroban_upgrades.Impact.Push.{Round, hit, skip, expand, round_limits, advance_lem}

pub Next-cases :
    (n : Next)
    → (n ≡ limited)
      ⊎ ((pending : List Pending) × (result : BTreeSet (List ImpactStep)) × (n ≡ go pending result))
Next-cases limited = inl refl
Next-cases (go pending result) = inr (pending, result, refl)

module _ (references : List TypeReference) (target_type : String) where
  -- An invariant that every round without a limit keeps holds of the result; where no limit was met,
  -- nothing waits.
  pub loop_rule :
      (P : List Pending → BTreeSet (List ImpactStep) → Type 0)
      → ((p : Pending) (rest : List Pending) (result : BTreeSet (List ImpactStep))
            (pending : List Pending) (result' : BTreeSet (List ImpactStep))
          → length p.steps ≤ max_public_impact_depth
          → length result < max_public_impact_paths
          → Round references target_type p rest result pending result'
          → P (p ∷ rest) result
          → P pending result')
      → (fuel visited : ℕ) (pending : List Pending) (result r : BTreeSet (List ImpactStep))
        (over : Bool)
      → P pending result
      → loop references target_type fuel visited pending result ≡ some (r, over)
      → (left : List Pending) × P left r × (over ≡ false → left ≡ [])
  unfolding loop
  loop_rule P keep zero visited [] result r over h e =
      ([], subst (P []) (ground arith) h, λ _. refl)
  loop_rule P keep zero visited (p ∷ rest) result r over h e = absurd (ground arith)
  loop_rule P keep (suc fuel) visited [] result r over h e =
      ([], subst (P []) (ground arith) h, λ _. refl)
  loop_rule P keep (suc fuel) visited (p ∷ rest) result r over h e =
      elim (Next-cases (round references target_type (suc visited) p rest result)) [
        | inl stop ↦ (
          p ∷ rest,
          subst (P (p ∷ rest)) (ground arith) h,
          λ (q : over ≡ false). absurd (ground arith),
        )
        | inr (pending, result', next) ↦
            let limits =
              round_limits references target_type (suc visited) p rest result pending result'
                next in
            loop_rule P keep fuel (suc visited) pending result' r over
              (keep p rest result pending result' limits.1 limits.2
                (advance_lem references target_type (suc visited) p rest result pending result'
                  next)
                h)
              (ground arith)
      ]

  loop-ne-none :
      (fuel visited : ℕ) (pending : List Pending) (result : BTreeSet (List ImpactStep))
      → suc max_public_impact_steps ≤ fuel + visited
      → visited ≤ max_public_impact_steps
      → loop references target_type fuel visited pending result ≢ none
  unfolding loop
  loop-ne-none zero visited pending result h k = absurd (omega arith)
  loop-ne-none (suc fuel) visited [] result h k = ground arith
  loop-ne-none (suc fuel) visited (p ∷ rest) result h k =
      elim (Next-cases (round references target_type (suc visited) p rest result)) [
        | inl stop ↦ ground arith
        | inr (pending, result', next) ↦
            let limits =
              round_limits references target_type (suc visited) p rest result pending result'
                next in
            let later = loop-ne-none fuel (suc visited) pending result' (omega arith) limits.0 in
            ground arith
      ]

abbrev pub initial : Artifact → String → List Pending
initial artifact root_type =
    if BTreeMap.contains_key root_type artifact.user_types then start root_type ∷ [] else []

module _ (artifact : Artifact) (root_type target_type : String) where
  -- The fuel of `routes_to_type` is enough, so its answer is the loop's.
  pub routes-eq-loop :
      (r : BTreeSet (List ImpactStep)) (over : Bool)
      → routes_to_type artifact root_type target_type ≡ (r, over)
      → loop artifact.type_references target_type
          (suc max_public_impact_steps)
          0
          (initial artifact root_type)
          []
        ≡ some (r, over)
  unfolding routes_to_type
  routes-eq-loop r over h =
      elim (Option-cases (
        loop artifact.type_references target_type (suc max_public_impact_steps) 0
          (initial artifact root_type) [])) [
            | inl out ↦ absurd (
                loop-ne-none artifact.type_references target_type (suc max_public_impact_steps) 0
                  (initial artifact root_type) [] (omega arith) (omega arith) out)
            | inr (answer, e) ↦
                e
                ∙ ap some (
                    sym (
                      ap
                        (λ o. elim o as (λ _. BTreeSet (List ImpactStep) × Bool) [
                          | none ↦ ([], true)
                          | some a ↦ a
                        ])
                        e)
                    ∙ h)
          ]

  length-insert :
      (s : List ImpactStep) (result : BTreeSet (List ImpactStep))
      → length (BTreeSet.insert s result) ≤ suc (length result)
  unfolding BTreeSet.insert
  length-insert s [] = omega arith
  length-insert s (t ∷ result) = ground (arith, length-insert s result)

  abbrev IsBounded : List Pending → BTreeSet (List ImpactStep) → Type 0
  IsBounded pending result =
      (length result ≤ max_public_impact_paths)
      × ((s : List ImpactStep) → In s result → length s ≤ max_public_impact_depth)

  IsBounded-Round :
      (p : Pending) (rest : List Pending) (result : BTreeSet (List ImpactStep))
      (pending : List Pending) (result' : BTreeSet (List ImpactStep))
      → length p.steps ≤ max_public_impact_depth
      → length result < max_public_impact_paths
      → Round artifact.type_references target_type p rest result pending result'
      → IsBounded (p ∷ rest) result
      → IsBounded pending result'
  IsBounded-Round p rest result pending result' d n (hit t e r) h = (
    rw r (omega (arith, length-insert p.steps result)),
    λ s m. elim ((BTreeSet.In-insert s p.steps result).0 (subst (In s) r m)) [
      | inl same ↦ rw same d
      | inr old ↦ h.1 s old
    ],
  )
  IsBounded-Round p rest result pending result' d n (skip t a e r) h = rw r h
  IsBounded-Round p rest result pending result' d n (expand t a e r) h = rw r h

  -- Whether or not a limit was met, the answer has at most 256 routes, of at most 64 steps each.
  pub routes_to_type_bounds :
      (length (routes_to_type artifact root_type target_type).0 ≤ max_public_impact_paths)
      × ((s : List ImpactStep)
          → In s (routes_to_type artifact root_type target_type).0
          → length s ≤ max_public_impact_depth)
  routes_to_type_bounds =
      let answer = routes_to_type artifact root_type target_type in
      let e = routes-eq-loop answer.0 answer.1 refl in
      (loop_rule artifact.type_references target_type IsBounded IsBounded-Round
        (suc max_public_impact_steps) 0 (initial artifact root_type) [] answer.0 answer.1
        (omega arith, λ s m. absurd m) e).1
