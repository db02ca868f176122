-- ===== src/Impact/Routes.antt =====
-- The routes that the search finds are routes, and all of them where no limit was met.
use soroban_upgrades.Base.{
  String, ◌≡◌, ◌≢◌, refl, sym, subst, ap, ◌∙◌, ◌↔◌, ◌⊎◌, inl, inr, List, [], ◌∷◌, ◌++◌, In,
}
use mathlib.Core.List.{append-nil, append_assoc}
use soroban_upgrades.Base.Order.{string_ord, list_ord}
use soroban_upgrades.Base.BTreeSet
use soroban_upgrades.Base.BTreeSet.{BTreeSet}
use soroban_upgrades.Artifact.{TypeReference}
use soroban_upgrades.Report.{ImpactStep, step_ord}
use soroban_upgrades.Impact.{Pending, step_of, follow, start}
use soroban_upgrades.Impact.Push.{IsEdge, Round, hit, skip, expand}

module _ (references : List TypeReference) (target_type : String) where
  -- `steps` leads from `current` to the target along edges of the specification, stops at the target
  -- as soon as it is there, and enters no type of `active` and none twice.
  abbrev pub Leads : (active : BTreeSet String) (current : String) → List ImpactStep → Type 0
  Leads active current [] = current ≡ target_type
  Leads active current (s ∷ steps) =
      (current ≢ target_type)
      × (¬ In current active)
      × ((e : TypeReference) × IsEdge references target_type current e × (s ≡ step_of e))
      × Leads (BTreeSet.insert current active) s.target_type steps

  module _ (root_type : String) where
    -- A route without repetition from the root to the target.
    abbrev pub IsRoute : List ImpactStep → Type 0
    IsRoute steps = Leads [] root_type steps

    -- `route` goes on from an entry of the stack.
    abbrev pub Waits : List Pending → List ImpactStep → Type 0
    Waits pending route =
        (q : Pending) × (steps : List ImpactStep) × In q pending
        × Leads q.active_types q.current steps
        × (route ≡ q.steps ++ steps)

    pub record IsExact (pending : List Pending) (result : BTreeSet (List ImpactStep)) : Type 0 where
      pub recorded : (r : List ImpactStep) → In r result → IsRoute r
      pub extends :
          (q : Pending) (steps : List ImpactStep)
          → In q pending
          → Leads q.active_types q.current steps
          → IsRoute (q.steps ++ steps)
      pub complete : (r : List ImpactStep) → IsRoute r → In r result ⊎ Waits pending r

    module _ (p : Pending) (rest : List Pending) (result : BTreeSet (List ImpactStep))
        (pending : List Pending) (result' : BTreeSet (List ImpactStep))
        (h : IsExact (p ∷ rest) result) where
      -- The target is reached: the steps are a route, and no other route goes on from here.
      IsExact-hit :
          p.current ≡ target_type
          → pending ≡ rest
          → result' ≡ BTreeSet.insert p.steps result
          → IsExact pending result'
      IsExact-hit at e r = record {
        recorded = λ s m. elim ((BTreeSet.In-insert s p.steps result).0 (subst (In s) r m)) [
          | inl same ↦ subst IsRoute (append-nil p.steps ∙ sym same) (h.extends p [] (inl refl) at)
          | inr old ↦ h.recorded s old
        ];
        extends = λ q steps m. h.extends q steps (inr (subst (In q) e m));
        complete = λ s route. elim (h.complete s route) [
          | inl old ↦ inl (subst (In s) (sym r) ((BTreeSet.In-insert s p.steps result).1 (inr old)))
          | inr (q, [], inl same, leads, eq) ↦ inl (
              subst (In s) (sym r) (
                (BTreeSet.In-insert s p.steps result).1
                  (inl (eq ∙ append-nil q.steps ∙ ap (λ (x : Pending). x.steps) same))))
          | inr (q, t ∷ steps, inl same, leads, eq) ↦
              absurd (leads.0 (ap (λ (x : Pending). x.current) same ∙ at))
          | inr (q, steps, inr m, leads, eq) ↦ inr (q, steps, subst (In q) (sym e) m, leads, eq)
        ];
      }

      -- The type is on its own route already: no route goes on from here.
      IsExact-skip :
          p.current ≢ target_type
          → In p.current p.active_types
          → pending ≡ rest
          → result' ≡ result
          → IsExact pending result'
      IsExact-skip other again e r = record {
        recorded = λ s m. h.recorded s (subst (In s) r m);
        extends = λ q steps m. h.extends q steps (inr (subst (In q) e m));
        complete = λ s route. elim (h.complete s route) [
          | inl old ↦ inl (subst (In s) (sym r) old)
          | inr (q, [], inl same, leads, eq) ↦
              absurd (other (sym (ap (λ (x : Pending). x.current) same) ∙ leads))
          | inr (q, t ∷ steps, inl same, leads, eq) ↦
              absurd
                (leads.1 (subst (λ (x : Pending). In x.current x.active_types) (sym same) again))
          | inr (q, steps, inr m, leads, eq) ↦ inr (q, steps, subst (In q) (sym e) m, leads, eq)
        ];
      }

      -- The edges out of the type: every route that goes on from here takes one of them.
      IsExact-expand :
          p.current ≢ target_type
          → ¬ In p.current p.active_types
          → ((q : Pending)
              → In q pending ↔ (
                  In q rest
                  ⊎ ((e : TypeReference) × IsEdge references target_type p.current e
                      × (q ≡ follow p.steps (BTreeSet.insert p.current p.active_types) e))))
          → result' ≡ result
          → IsExact pending result'
      IsExact-expand other new members r = record {
        recorded = λ s m. h.recorded s (subst (In s) r m);
        extends = λ q steps m leads. elim ((members q).0 m) [
          | inl old ↦ h.extends q steps (inr old) leads
          | inr (e, edge, same) ↦ extended e edge q same steps leads
        ];
        complete = λ s route. elim (h.complete s route) [
          | inl old ↦ inl (subst (In s) (sym r) old)
          | inr (q, steps, inl same, leads, eq) ↦ inr (
              opened s steps
                (subst (λ (x : Pending). Leads x.active_types x.current steps) same leads)
                (eq ∙ ap (λ (x : Pending). x.steps ++ steps) same))
          | inr (q, steps, inr m, leads, eq) ↦ inr (q, steps, (members q).1 (inl m), leads, eq)
        ];
      }
        where
          active : BTreeSet String
          active = BTreeSet.insert p.current p.active_types

          extended :
              (e : TypeReference)
              → IsEdge references target_type p.current e
              → (q : Pending) → q ≡ follow p.steps active e
              → (steps : List ImpactStep) → Leads q.active_types q.current steps
              → IsRoute (q.steps ++ steps)
          extended e edge q same steps leads =
              subst (λ (x : Pending). IsRoute (x.steps ++ steps)) (sym same)
                (subst IsRoute (sym (append_assoc p.steps (step_of e ∷ []) steps)) (
                  h.extends p (step_of e ∷ steps) (inl refl) (
                    other,
                    new,
                    (e, edge, refl),
                    subst (λ (x : Pending). Leads x.active_types x.current steps) same leads,
                  )))

          opened :
              (s steps : List ImpactStep)
              → Leads p.active_types p.current steps
              → s ≡ p.steps ++ steps
              → Waits pending s
          opened s [] leads eq = absurd (other leads)
          opened s (t ∷ steps) (ne, fresh, (e, edge, same), leads) eq = (
            follow p.steps active e,
            steps,
            (members (follow p.steps active e)).1 (inr (e, edge, refl)),
            subst (λ (x : ImpactStep). Leads active x.target_type steps) same leads,
            eq
                ∙ ap (λ (x : ImpactStep). p.steps ++ x ∷ steps) same
                ∙ sym (append_assoc p.steps (step_of e ∷ []) steps),
          )

      pub IsExact-Round :
          Round references target_type p rest result pending result' → IsExact pending result'
      IsExact-Round (hit at e r) = IsExact-hit at e r
      IsExact-Round (skip other again e r) = IsExact-skip other again e r
      IsExact-Round (expand other new members r) = IsExact-expand other new members r

    -- Before the first round every route waits at the root.
    pub IsExact-start : IsExact (start root_type ∷ []) []
    IsExact-start = record {
      recorded = λ r m. absurd m;
      extends = λ q steps m leads. elim m [
        | inl same ↦
            subst (λ (x : Pending). IsRoute (x.steps ++ steps)) (sym same)
              (subst (λ (x : Pending). Leads x.active_types x.current steps) same leads)
        | inr i ↦ absurd i
      ];
      complete = λ r route. inr (start root_type, r, inl refl, route, refl);
    }
