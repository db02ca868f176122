-- ===== src/Artifact/Calls/Complete.antt =====
-- What is there is reported: the evidence of an export is exactly what direct calls reach from it.
use soroban_upgrades.Base.{
  ℕ, suc, ◌≤◌, String, ◌≡◌, refl, ap, sym, subst, ◌∙◌, ◌↔◌, ◌⊎◌, inl, inr, true, List, [], ◌∷◌, In,
  In-append, arith, some, Option-cases, length, get_elem?,
}
use soroban_upgrades.Base.Result.{ok}
use soroban_upgrades.Base.Order.{nat_ord, string_ord}
use soroban_upgrades.Base.BTreeSet
use soroban_upgrades.Artifact.{ExportCallEvidence}
use soroban_upgrades.Artifact.Calls.{
  FunctionBodyCalls, Search, loop, start, total_calls, collect_export_call_evidence,
}
use soroban_upgrades.Artifact.Calls.Bound.{collect_fuel}
use soroban_upgrades.Artifact.Calls.Reach.{
  HasBody, IsImport, Reach, here, step, Round, imported, again, entered, popped, loop_rule,
}
use soroban_upgrades.Artifact.Calls.Sound.{ReachesImport, ReachesDynamic, IsSound, IsSound-Round}

module _ (imports : List String) (bodies : List FunctionBodyCalls) where
  -- Function `v` needs no more work.
  abbrev IsDone : Search → ℕ → Type 0
  IsDone s v =
      ((length imports ≤ v) × In v s.visited)
      ⊎ ((name : String) × IsImport imports bodies v name × In name s.evidence.host_imports)

  body_unique :
      (u v : ℕ) (c b : FunctionBodyCalls)
      → u ≡ v
      → HasBody imports bodies v c
      → HasBody imports bodies u b
      → c ≡ b
  body_unique u v c b e h k = ground arith

  module _ (entry : ℕ) where
    record IsComplete (s : Search) : Type 0 where
      handled : In entry s.pending ⊎ IsDone s entry
      closed :
          (u v : ℕ) (b : FunctionBodyCalls)
          → In u s.visited
          → HasBody imports bodies u b
          → In v b.direct_calls
          → In v s.pending ⊎ IsDone s v
      dynamic :
          (u : ℕ) (b : FunctionBodyCalls)
          → In u s.visited
          → HasBody imports bodies u b
          → b.has_dynamic_dispatch ≡ true
          → s.evidence.dynamic_dispatch_reachable ≡ true

    -- What waits or is done before a round waits or is done after it.
    handled-Round :
        (s : Search) (current : ℕ) (rest : List ℕ) (t : Search)
        → s.pending ≡ current ∷ rest
        → Round imports bodies current (popped imports bodies s rest) t
        → (v : ℕ) → In v s.pending ⊎ IsDone s v
        → In v t.pending ⊎ IsDone t v
    handled-Round s current rest t e (imported name i p vis n d) v (inr (inl old)) =
        inr (inl (old.0, subst (In v) (sym vis) old.1))
    handled-Round s current rest t e (imported name i p vis n d) v (inr (inr (m, im, q))) =
        inr (inr (m, im, subst (In m) (sym n) ((BTreeSet.In-insert m name _).1 (inr q))))
    handled-Round s current rest t e (imported name i p vis n d) v (inl m) =
        elim (subst (In v) e m) [
          | inl same ↦ inr (
              inr (
                name,
                subst (λ x. IsImport imports bodies x name) (sym same) i,
                subst (In name) (sym n) ((BTreeSet.In-insert name name _).1 (inl refl)),
              ))
          | inr later ↦ inl (subst (In v) (sym p) later)
        ]
    handled-Round s current rest t e (again le m same) v (inr old) =
        inr (subst (λ x. IsDone x v) (sym same) old)
    handled-Round s current rest t e (again le m same) v (inl q) = elim (subst (In v) e q) [
      | inl p ↦ inr (
          inl (
            subst (λ x. length imports ≤ x) (sym p) le,
            subst (λ x. In v x.visited) (sym same) (subst (λ x. In x s.visited) (sym p) m),
          ))
      | inr later ↦ inl (subst (λ x. In v x.pending) (sym same) later)
    ]
    handled-Round s current rest t e (entered b has new p vis n d) v (inr (inl old)) =
        inr (inl (old.0, subst (In v) (sym vis) ((BTreeSet.In-insert v current _).1 (inr old.1))))
    handled-Round s current rest t e (entered b has new p vis n d) v (inr (inr (m, im, q))) =
        inr (inr (m, im, subst (In m) (sym n) q))
    handled-Round s current rest t e (entered b has new p vis n d) v (inl m) =
        elim (subst (In v) e m) [
          | inl same ↦ inr (
              inl (
                subst (λ x. length imports ≤ x) (sym same) has.0,
                subst (In v) (sym vis) ((BTreeSet.In-insert v current _).1 (inl same)),
              ))
          | inr later ↦ inl (subst (In v) (sym p) ((In-append v b.direct_calls rest).1 (inr later)))
        ]

    IsComplete-Round :
        (s : Search) (current : ℕ) (rest : List ℕ) (t : Search)
        → s.pending ≡ current ∷ rest
        → Round imports bodies current (popped imports bodies s rest) t
        → IsComplete s
        → IsComplete t
    IsComplete-Round s current rest t e r h = record {
      handled = keep entry h.handled;
      closed = closed r;
      dynamic = dynamic r;
    }
      where
        keep : (v : ℕ) → In v s.pending ⊎ IsDone s v → In v t.pending ⊎ IsDone t v
        keep = handled-Round s current rest t e r

        closed :
            Round imports bodies current (popped imports bodies s rest) t
            → (u v : ℕ) (b : FunctionBodyCalls) → In u t.visited
            → HasBody imports bodies u b
            → In v b.direct_calls
            → In v t.pending ⊎ IsDone t v
        closed (imported name i p vis n d) u v b m has called =
            keep v (h.closed u v b (subst (In u) vis m) has called)
        closed (again le q same) u v b m has called =
            keep v (h.closed u v b (subst (λ x. In u x.visited) same m) has called)
        closed (entered c hasc new p vis n d) u v b m has called =
            elim ((BTreeSet.In-insert u current _).0 (subst (In u) vis m)) [
              | inl same ↦
                  let eq : c.direct_calls ≡ b.direct_calls =
                    ap (λ x. x.direct_calls) (body_unique u current c b same hasc has) in
                  inl (
                    subst (In v) (sym p)
                      ((In-append v c.direct_calls rest).1 (inl (subst (In v) (sym eq) called))))
              | inr old ↦ keep v (h.closed u v b old has called)
            ]

        dynamic :
            Round imports bodies current (popped imports bodies s rest) t
            → (u : ℕ) (b : FunctionBodyCalls) → In u t.visited
            → HasBody imports bodies u b
            → b.has_dynamic_dispatch ≡ true
            → t.evidence.dynamic_dispatch_reachable ≡ true
        dynamic (imported name i p vis n d) u b m has q =
            d ∙ h.dynamic u b (subst (In u) vis m) has q
        dynamic (again le w same) u b m has q =
            ap (λ x. x.evidence.dynamic_dispatch_reachable) same
            ∙ h.dynamic u b (subst (λ x. In u x.visited) same m) has q
        dynamic (entered c hasc new p vis n d) u b m has q =
            elim ((BTreeSet.In-insert u current _).0 (subst (In u) vis m)) [
              | inl same ↦ ground (arith, body_unique u current c b same hasc has)
              | inr old ↦ ground (arith, h.dynamic u b old has q)
            ]

    -- Where nothing waits, all that is reached is done.
    Reach-IsDone :
        (t : Search) (v : ℕ)
        → IsComplete t
        → t.pending ≡ []
        → Reach imports bodies entry v
        → IsDone t v
    Reach-IsDone t v h e here = elim h.handled [
      | inl waits ↦ absurd (subst (In entry) e waits)
      | inr done ↦ done
    ]
    Reach-IsDone t v h e (step {u} r b has called) = elim (Reach-IsDone t u h e r) [
      | inl (le, m) ↦ elim (h.closed u v b m has called) [
        | inl waits ↦ absurd (subst (In v) e waits)
        | inr done ↦ done
      ]
      | inr (name, (lt, q), m) ↦ absurd (omega (arith, has.0))
    ]

    IsComplete-start : IsComplete (start entry)
    IsComplete-start = record {
      handled = inl (inl refl);
      closed = λ u v b m. absurd m;
      dynamic = λ u b m. absurd m;
    }

    IsSound-start : IsSound imports bodies entry (start entry)
    IsSound-start = record {
      queued = λ v m. elim m [ inl e ↦ rw e here | inr q ↦ absurd q ];
      found = λ name m. absurd m;
      dynamic = λ q. cc;
    }

    collect-eq-loop :
        (e : ExportCallEvidence)
        → collect_export_call_evidence imports bodies entry ≡ ok e
        → loop imports bodies (suc (total_calls bodies)) (start entry) ≡ some (ok e)
    unfolding collect_export_call_evidence
    collect-eq-loop e h =
        elim (Option-cases (loop imports bodies (suc (total_calls bodies)) (start entry))) [
          | inl out ↦ absurd (collect_fuel imports bodies entry out)
          | inr (r, q) ↦ ground arith
        ]

    -- The two halves of the theorem at the final state of the worklist.
    exact_at :
        (t : Search)
        → IsSound imports bodies entry t × IsComplete t
        → t.pending ≡ []
        → ((name : String)
            → In name t.evidence.host_imports ↔ ReachesImport imports bodies entry name)
          × ((t.evidence.dynamic_dispatch_reachable ≡ true) ↔ ReachesDynamic imports bodies entry)
    exact_at t (sound, complete) e = (
      λ name. (
        sound.found name,
        λ (i, r, im). elim (Reach-IsDone t i complete e r) [
          | inl (le, m) ↦ absurd (omega (arith, im.0))
          | inr (other, im', m) ↦
              subst (λ x. In x t.evidence.host_imports) (same_import i other name im'.1 im.1) m
        ],
      ),
      (
        sound.dynamic,
        λ (u, b, r, has, d). elim (Reach-IsDone t u complete e r) [
          | inl (le, m) ↦ complete.dynamic u b m has d
          | inr (other, (lt, q), m) ↦ absurd (omega (arith, has.0))
        ],
      ),
    )
      where
        same_import :
            (i : ℕ) (a b : String)
            → get_elem? imports i ≡ some a
            → get_elem? imports i ≡ some b
            → a ≡ b
        same_import i a b h k = ground arith

    -- For an exported function, the recorded host imports are exactly the imports that direct calls
    -- reach from it, and dynamic dispatch is recorded exactly where some reached body uses it,
    -- whenever the call graph is well formed enough for the traversal to succeed.
    pub collect_export_call_evidence_exact :
        (e : ExportCallEvidence)
        → collect_export_call_evidence imports bodies entry ≡ ok e
        → ((name : String) → In name e.host_imports ↔ ReachesImport imports bodies entry name)
          × ((e.dynamic_dispatch_reachable ≡ true) ↔ ReachesDynamic imports bodies entry)
    collect_export_call_evidence_exact e h =
        let (t, invariant, empty, same) =
          loop_rule imports bodies (λ s. IsSound imports bodies entry s × IsComplete s)
            (λ s current rest u q r (a, b). (
              IsSound-Round imports bodies entry s current rest u q r a,
              IsComplete-Round s current rest u q r b,
            ))
            (suc (total_calls bodies)) (start entry) e (IsSound-start, IsComplete-start)
            (collect-eq-loop e h) in
        subst
          (λ (x : ExportCallEvidence).
            ((name : String) → In name x.host_imports ↔ ReachesImport imports bodies entry name)
            × ((x.dynamic_dispatch_reachable ≡ true) ↔ ReachesDynamic imports bodies entry))
          same (exact_at t invariant empty)
