-- ===== src/Artifact/Calls/Total.antt =====
-- In a module whose calls name functions of the module, as a validated one does, the traversal
-- succeeds.
use soroban_upgrades.Base.{
  ℕ, zero, suc, ◌+◌, ◌-◌, ◌≤◌, ◌<◌, String, ◌≡◌, ◌≢◌, refl, ap, sym, subst, ◌∙◌, ◌↔◌, inl, inr,
  true, false, List, ◌∷◌, In, In-append, length, get_elem?, get_elem?-lt, arith, some, List-cases,
  Bool-cases, Option-cases, ltb,
}
use soroban_upgrades.Base.Result.{Error, ok, err, Result-cases}
use soroban_upgrades.Base.Order.{nat_ord}
use soroban_upgrades.Artifact.{ExportCallEvidence}
use soroban_upgrades.Artifact.Calls.{
  FunctionBodyCalls, Search, visit_import, visit_body, visit, loop, start, total_calls,
  collect_export_call_evidence,
}
use soroban_upgrades.Artifact.Calls.Bound.{collect_fuel}
use soroban_upgrades.Artifact.Calls.Reach.{Round, imported, again, entered, popped, visit-Round}
use soroban_upgrades.Artifact.Calls.Sound.{ReachesImport, ReachesDynamic}
use soroban_upgrades.Artifact.Calls.Complete.{collect_export_call_evidence_exact}

module _ (imports : List String) (bodies : List FunctionBodyCalls) where
  -- Function `v` is imported or defined.
  abbrev pub Exists : ℕ → Type 0
  Exists v = v < length imports + length bodies

  -- Every direct call is to a function that is imported or defined.
  abbrev pub CallsExist : Type 0
  CallsExist =
      (j v : ℕ) (b : FunctionBodyCalls)
      → get_elem? bodies j ≡ some b
      → In v b.direct_calls
      → Exists v

  visit-ne-err :
      (current : ℕ) (s : Search) (e : Error)
      → Exists current
      → visit imports bodies current s ≢ err e
  unfolding visit visit_import visit_body
  visit-ne-err current s e h = elim (Bool-cases (ltb current (length imports))) [
    | inl small ↦ ground (arith, get_elem?-lt {0} imports current)
    | inr large ↦
        ground (
          arith,
          get_elem?-lt {0} bodies (current - length imports) (omega (arith, large_le large)),
        )
  ]
    where
      large_le : ltb current (length imports) ≡ false → length imports ≤ current
      large_le q = ground arith

  exist-Round :
      (current : ℕ) (rest : List ℕ) (s t : Search)
      → CallsExist
      → s.pending ≡ current ∷ rest
      → Round imports bodies current (popped imports bodies s rest) t
      → ((v : ℕ) → In v s.pending → Exists v)
      → (v : ℕ) → In v t.pending
      → Exists v
  exist-Round current rest s t all e (imported name i p vis n d) h v m =
      h v (subst (In v) (sym e) (inr (subst (In v) p m)))
  exist-Round current rest s t all e (again le old same) h v m =
      h v (subst (In v) (sym e) (inr (subst (λ x. In v x.pending) same m)))
  exist-Round current rest s t all e (entered b has new p vis n d) h v m =
      elim ((In-append v b.direct_calls rest).0 (subst (In v) p m)) [
        | inl called ↦ all (current - length imports) v b has.1 called
        | inr old ↦ h v (subst (In v) (sym e) (inr old))
      ]

  loop-ne-err :
      (fuel : ℕ) (s : Search) (e : Error)
      → CallsExist
      → ((v : ℕ) → In v s.pending → Exists v)
      → loop imports bodies fuel s ≢ some (err e)
  unfolding loop
  loop-ne-err zero s e all h = ground arith
  loop-ne-err (suc fuel) s e all h = elim (List-cases s.pending) [
    | inl done ↦ ground arith
    | inr (current, rest, more) ↦
        elim (Result-cases (visit imports bodies current (popped imports bodies s rest))) [
          | inl (t, good) ↦
              let later = loop-ne-err fuel t e all (
                exist-Round current rest s t all more
                  (visit-Round imports bodies current (popped imports bodies s rest) t good) h) in
              ground arith
          | inr (bad, failed) ↦ absurd (
              visit-ne-err current (popped imports bodies s rest) bad
                (h current (subst (In current) (sym more) (inl refl))) failed)
        ]
  ]

  -- Where every direct call and the exported function itself are imported or defined, the traversal
  -- succeeds: its host imports are exactly those that direct calls reach from the export, and dynamic
  -- dispatch is recorded exactly where a reached body uses it.
  pub collect_export_call_evidence_total :
      (entry : ℕ)
      → CallsExist
      → Exists entry
      → (e : ExportCallEvidence) × (collect_export_call_evidence imports bodies entry ≡ ok e)
        × ((name : String) → In name e.host_imports ↔ ReachesImport imports bodies entry name)
        × ((e.dynamic_dispatch_reachable ≡ true) ↔ ReachesDynamic imports bodies entry)
  unfolding collect_export_call_evidence
  collect_export_call_evidence_total entry all h =
      elim (Option-cases (loop imports bodies (suc (total_calls bodies)) (start entry))) [
        | inl out ↦ absurd (collect_fuel imports bodies entry out)
        | inr (r, q) ↦ elim (Result-cases r) [
          | inl (e, good) ↦
              let returned : collect_export_call_evidence imports bodies entry ≡ ok e =
                ground arith in
              let (names, dynamic) =
                collect_export_call_evidence_exact imports bodies entry e returned in
              (e, returned, names, dynamic)
          | inr (e, bad) ↦ absurd (
              loop-ne-err (suc (total_calls bodies)) (start entry) e all
                (λ v m. elim m [ inl p ↦ subst Exists (sym p) h | inr i ↦ absurd i ])
                (q ∙ ap some bad))
        ]
      ]
