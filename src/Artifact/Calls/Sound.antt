-- ===== src/Artifact/Calls/Sound.antt =====
-- What the worklist reports is there: every import and every dynamic dispatch that it records is
-- reached by direct calls.
use soroban_upgrades.Base.{
  ℕ, String, ◌≡◌, refl, inl, inr, true, List, ◌∷◌, In, In-append, arith, subst, sym, ◌∙◌,
  Bool-cases,
}
use soroban_upgrades.Base.Order.{string_ord}
use soroban_upgrades.Base.BTreeSet
use soroban_upgrades.Artifact.Calls.{FunctionBodyCalls, Search}
use soroban_upgrades.Artifact.Calls.Reach.{
  HasBody, IsImport, Reach, step, Round, imported, again, entered, popped,
}

module _ (imports : List String) (bodies : List FunctionBodyCalls) (start : ℕ) where
  -- Function `start` reaches a call of the import `name`.
  abbrev pub ReachesImport : String → Type 0
  ReachesImport name = (i : ℕ) × Reach imports bodies start i × IsImport imports bodies i name

  -- Function `start` reaches a body that calls through a table or a reference.
  abbrev pub ReachesDynamic : Type 0
  ReachesDynamic =
      (u : ℕ) × (b : FunctionBodyCalls) × Reach imports bodies start u
      × HasBody imports bodies u b
      × (b.has_dynamic_dispatch ≡ true)

  pub record IsSound (s : Search) : Type 0 where
    pub queued : (v : ℕ) → In v s.pending → Reach imports bodies start v
    pub found : (name : String) → In name s.evidence.host_imports → ReachesImport name
    pub dynamic : s.evidence.dynamic_dispatch_reachable ≡ true → ReachesDynamic

  queued_rest :
      (s : Search) (current : ℕ) (rest : List ℕ)
      → s.pending ≡ current ∷ rest
      → IsSound s
      → (v : ℕ) → In v (current ∷ rest)
      → Reach imports bodies start v
  queued_rest s current rest e h v m = h.queued v (subst (In v) (sym e) m)

  pub IsSound-Round :
      (s : Search) (current : ℕ) (rest : List ℕ) (t : Search)
      → s.pending ≡ current ∷ rest
      → Round imports bodies current (popped imports bodies s rest) t
      → IsSound s
      → IsSound t
  IsSound-Round s current rest t e (imported name i p v n d) h =
      let queued = queued_rest s current rest e h in
      record {
        queued = λ w m. queued w (inr (subst (In w) p m));
        found = λ other m.
            elim ((BTreeSet.In-insert other name s.evidence.host_imports).0
              (subst (In other) n m)) [
                | inl q ↦ (
                  current,
                  queued current (inl refl),
                  subst (IsImport imports bodies current) (sym q) i,
                )
                | inr old ↦ h.found other old
              ];
        dynamic = λ q. h.dynamic (sym d ∙ q);
      }
  IsSound-Round s current rest t e (again le m same) h =
      let queued = queued_rest s current rest e h in
      subst IsSound (sym same)
        (record { queued = λ w q. queued w (inr q); found = h.found; dynamic = h.dynamic })
  IsSound-Round s current rest t e (entered b has new p v n d) h =
      let queued = queued_rest s current rest e h in
      record {
        queued = λ w m. elim ((In-append w b.direct_calls rest).0 (subst (In w) p m)) [
          | inl called ↦ step (queued current (inl refl)) b has called
          | inr old ↦ queued w (inr old)
        ];
        found = λ name m. h.found name (subst (In name) n m);
        dynamic = λ q. elim (Bool-cases s.evidence.dynamic_dispatch_reachable) [
          | inl old ↦ h.dynamic old
          | inr fresh ↦ (current, b, queued current (inl refl), has, ground arith)
        ];
      }
