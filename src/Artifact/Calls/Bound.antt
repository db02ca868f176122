-- ===== src/Artifact/Calls/Bound.antt =====
-- The worklist ends: each round removes one waiting call, and each body adds its calls once.
use soroban_upgrades.Base.{
  ℕ, zero, suc, ◌+◌, ◌-◌, ◌≤◌, ◌<◌, String, ◌≡◌, ◌≢◌, refl, ap, sym, subst, inl, inr, List, [], ◌∷◌,
  In, length, length-append, get_elem?, arith, none, some, if◌then◌else◌, List-cases,
}
use soroban_upgrades.Base.Result.{Result-cases}
use soroban_upgrades.Base.Order.{nat_ord}
use soroban_upgrades.Base.BTreeSet
use soroban_upgrades.Base.BTreeSet.{BTreeSet}
use soroban_upgrades.Artifact.Calls.{FunctionBodyCalls, Search, visit, loop, start, total_calls}
use soroban_upgrades.Artifact.Calls.Reach.{Round, imported, again, entered, popped, visit-Round}

-- The calls of the bodies that were not visited, from index `k` on.
abbrev unvisited : ℕ → BTreeSet ℕ → List FunctionBodyCalls → ℕ
unvisited k visited [] = 0
unvisited k visited (b ∷ bs) =
    (if BTreeSet.contains k visited then 0 else length b.direct_calls)
    + unvisited (suc k) visited bs

contains-insert_ne :
    (k a : ℕ) (s : BTreeSet ℕ)
    → k ≢ a
    → BTreeSet.contains k (BTreeSet.insert a s) ≡ BTreeSet.contains k s
contains-insert_ne k a s h = ground (
  arith,
  BTreeSet.contains_iff k s,
  BTreeSet.contains_iff k (BTreeSet.insert a s),
  BTreeSet.In-insert k a s,
)

unvisited-insert_lt :
    (k a : ℕ) (s : BTreeSet ℕ) (bs : List FunctionBodyCalls)
    → a < k
    → unvisited k (BTreeSet.insert a s) bs ≡ unvisited k s bs
unvisited-insert_lt k a s [] h = refl
unvisited-insert_lt k a s (b ∷ bs) h =
    ground (arith, contains-insert_ne k a s, unvisited-insert_lt (suc k) a s bs)

unvisited-insert :
    (k j : ℕ) (s : BTreeSet ℕ) (bs : List FunctionBodyCalls) (b : FunctionBodyCalls)
    → get_elem? bs j ≡ some b
    → ¬ In (k + j) s
    → unvisited k (BTreeSet.insert (k + j) s) bs + length b.direct_calls ≡ unvisited k s bs
unvisited-insert k j s [] b h new = cc
unvisited-insert k zero s (c ∷ bs) b h new =
    let here : k + zero ≡ k = omega arith in
    ground (
      arith,
      here,
      BTreeSet.contains_iff (k + zero) s,
      BTreeSet.contains_iff (k + zero) (BTreeSet.insert (k + zero) s),
      BTreeSet.In-insert (k + zero) (k + zero) s,
      unvisited-insert_lt (suc k) (k + zero) s bs (omega arith),
    )
unvisited-insert k (suc j) s (c ∷ bs) b h new =
    let next : k + suc j ≡ suc k + j = omega arith in
    let rest = unvisited-insert (suc k) j s bs b h (λ m. new (subst (λ x. In x s) (sym next) m)) in
    let same : unvisited (suc k) (BTreeSet.insert (k + suc j) s) bs
        ≡ unvisited (suc k) (BTreeSet.insert (suc k + j) s) bs =
      ap (λ x. unvisited (suc k) (BTreeSet.insert x s) bs) next in
    ground (arith, contains-insert_ne k (k + suc j) s (omega arith), rest, same)

module _ (imports : List String) (bodies : List FunctionBodyCalls) where
  abbrev work : Search → ℕ
  work s = length s.pending + unvisited (length imports) s.visited bodies

  work-Round :
      (current : ℕ) (rest : List ℕ) (s t : Search)
      → s.pending ≡ current ∷ rest
      → Round imports bodies current (popped imports bodies s rest) t
      → work t < work s
  work-Round current rest s t e (imported name i p v n d) = ground (arith)
  work-Round current rest s t e (again le m same) = ground (arith)
  work-Round current rest s t e (entered b has new p v n d) =
      let at : length imports + (current - length imports) ≡ current = omega arith in
      let counted =
        unvisited-insert (length imports) (current - length imports) s.visited bodies b has.1
          (λ m. new (subst (λ x. In x s.visited) at m)) in
      let same : unvisited (length imports) t.visited bodies
          ≡ unvisited (length imports)
              (BTreeSet.insert (length imports + (current - length imports)) s.visited) bodies =
        rw (v, at) in
      ground (arith, counted, same, length-append b.direct_calls rest, ap length p, ap length e)

  loop-ne-none : (fuel : ℕ) (s : Search) → work s ≤ fuel → loop imports bodies fuel s ≢ none
  unfolding loop
  loop-ne-none zero s h = elim (List-cases s.pending) [
    | inl done ↦ ground arith
    | inr (current, rest, more) ↦ absurd (omega (arith, ap length more))
  ]
  loop-ne-none (suc fuel) s h = elim (List-cases s.pending) [
    | inl done ↦ ground arith
    | inr (current, rest, more) ↦
        elim (Result-cases (visit imports bodies current (popped imports bodies s rest))) [
          | inl (t, good) ↦
              let less =
                work-Round current rest s t more
                  (visit-Round imports bodies current (popped imports bodies s rest) t good) in
              ground (arith, loop-ne-none fuel t (omega arith))
          | inr (bad, failed) ↦ ground arith
        ]
  ]

unvisited-nil : (k : ℕ) (bs : List FunctionBodyCalls) → unvisited k [] bs ≡ total_calls bs
unvisited-nil k [] = refl
unvisited-nil k (b ∷ bs) = ground (arith, BTreeSet.contains_iff k [], unvisited-nil (suc k) bs)

module _ (imports : List String) (bodies : List FunctionBodyCalls) (entry : ℕ) where
  -- The fuel of `collect_export_call_evidence` is enough.
  pub collect_fuel : loop imports bodies (suc (total_calls bodies)) (start entry) ≢ none
  collect_fuel =
      loop-ne-none imports bodies (suc (total_calls bodies)) (start entry)
        (omega (arith, unvisited-nil (length imports) bodies))
