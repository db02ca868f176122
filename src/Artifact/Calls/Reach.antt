-- ===== src/Artifact/Calls/Reach.antt =====
-- The call graph as a relation, and what one round of the worklist does.
use soroban_upgrades.Base.{
  ℕ, zero, suc, ◌-◌, ◌≤◌, ◌<◌, String, ◌≡◌, inl, inr, ◌||◌, List, [], ◌∷◌, ◌++◌, In, length,
  get_elem?, some, arith, Option-cases, Bool-cases, List-cases, ltb,
}
use soroban_upgrades.Base.Result.{ok, Result-cases}
use soroban_upgrades.Base.Order.{nat_ord, string_ord}
use soroban_upgrades.Base.BTreeSet
use soroban_upgrades.Artifact.{ExportCallEvidence}
use soroban_upgrades.Artifact.Calls.{
  FunctionBodyCalls, Search, visit_import, visit_body, visit, loop,
}

module _ (imports : List String) (bodies : List FunctionBodyCalls) where
  -- Function `u` is defined in the module, with the body `b`.
  abbrev pub HasBody : ℕ → FunctionBodyCalls → Type 0
  HasBody u b = (length imports ≤ u) × (get_elem? bodies (u - length imports) ≡ some b)

  -- Function `i` is imported under `name`.
  abbrev pub IsImport : ℕ → String → Type 0
  IsImport i name = (i < length imports) × (get_elem? imports i ≡ some name)

  -- The functions that direct calls reach.
  pub data Reach (start : ℕ) : ℕ → Type 0 where
    here : Reach start start
    step :
        {u v : ℕ}
        → Reach start u
        → (b : FunctionBodyCalls) → HasBody u b
        → In v b.direct_calls
        → Reach start v

  pub data Round (current : ℕ) (s t : Search) : Type 0 where
    imported :
        (name : String)
        → IsImport current name
        → t.pending ≡ s.pending
        → t.visited ≡ s.visited
        → t.evidence.host_imports ≡ BTreeSet.insert name s.evidence.host_imports
        → t.evidence.dynamic_dispatch_reachable ≡ s.evidence.dynamic_dispatch_reachable
        → Round current s t
    again : length imports ≤ current → In current s.visited → t ≡ s → Round current s t
    entered :
        (b : FunctionBodyCalls)
        → HasBody current b
        → ¬ In current s.visited
        → t.pending ≡ b.direct_calls ++ s.pending
        → t.visited ≡ BTreeSet.insert current s.visited
        → t.evidence.host_imports ≡ s.evidence.host_imports
        → t.evidence.dynamic_dispatch_reachable
          ≡ (s.evidence.dynamic_dispatch_reachable || b.has_dynamic_dispatch)
        → Round current s t

  visit_import-Round :
      (current : ℕ) (s t : Search)
      → current < length imports
      → visit_import imports bodies current s ≡ ok t
      → Round current s t
  unfolding visit_import
  visit_import-Round current s t lt h = elim (Option-cases (get_elem? imports current)) [
    | inl e ↦ absurd (ground arith)
    | inr (name, e) ↦
        imported name (lt, e) (ground arith) (ground arith) (ground arith) (ground arith)
  ]

  visit_body-Round :
      (current : ℕ) (s t : Search)
      → length imports ≤ current
      → ¬ In current s.visited
      → visit_body imports bodies current s ≡ ok t
      → Round current s t
  unfolding visit_body
  visit_body-Round current s t le new h =
      elim (Option-cases (get_elem? bodies (current - length imports))) [
        | inl e ↦ absurd (ground arith)
        | inr (b, e) ↦
            entered b (le, e) new (ground arith) (ground arith) (ground arith) (ground arith)
      ]

  -- A round that succeeds is one of the three.
  pub visit-Round :
      (current : ℕ) (s t : Search) → visit imports bodies current s ≡ ok t → Round current s t
  unfolding visit
  visit-Round current s t h = elim (Bool-cases (ltb current (length imports))) [
    | inl small ↦ visit_import-Round current s t (ground arith) (ground arith)
    | inr large ↦ elim (Bool-cases (BTreeSet.contains current s.visited)) [
      | inl old ↦
          again (ground arith) ((BTreeSet.contains_iff current s.visited).0 old) (ground arith)
      | inr new ↦
          visit_body-Round current s t (ground arith)
            (λ m. ground (arith, BTreeSet.contains_iff current s.visited)) (ground arith)
    ]
  ]

  abbrev pub popped : Search → List ℕ → Search
  popped s rest = record s { pending = rest }

  -- An invariant that every round keeps holds where the loop returns its evidence.
  pub loop_rule :
      (P : Search → Type 0)
      → ((s : Search) (current : ℕ) (rest : List ℕ) (t : Search)
          → s.pending ≡ current ∷ rest
          → Round current (popped s rest) t
          → P s
          → P t)
      → (fuel : ℕ) (s : Search) (e : ExportCallEvidence) → P s
      → loop imports bodies fuel s ≡ some (ok e)
      → (t : Search) × P t × (t.pending ≡ []) × (t.evidence ≡ e)
  unfolding loop
  loop_rule P keep zero s e p h = elim (List-cases s.pending) [
    | inl done ↦ (s, p, done, ground arith)
    | inr (current, rest, more) ↦ absurd (ground arith)
  ]
  loop_rule P keep (suc fuel) s e p h = elim (List-cases s.pending) [
    | inl done ↦ (s, p, done, ground arith)
    | inr (current, rest, more) ↦
        elim (Result-cases (visit imports bodies current (popped s rest))) [
          | inl (t, good) ↦
              loop_rule P keep fuel t e
                (keep s current rest t more (visit-Round current (popped s rest) t good) p)
                (ground arith)
          | inr (bad, failed) ↦ absurd (ground arith)
        ]
  ]
