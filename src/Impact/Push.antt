-- ===== src/Impact/Push.antt =====
-- What a round of the search does, as a relation.
use soroban_upgrades.Base.{
  ℕ, ◌+◌, ◌≤◌, ◌<◌, String, ◌≡◌, refl, sym, ap, ◌∙◌, subst, ◌≢◌, ◌↔◌, ◌⊎◌, inl, inr, false, List,
  [], ◌∷◌, In, In-filter, In-reverse, reverse, length, arith, str_eq, eq_iff, Bool-cases, leb,
}
use soroban_upgrades.Base.Order.{string_ord, list_ord}
use soroban_upgrades.Base.BTreeSet
use soroban_upgrades.Base.BTreeSet.{BTreeSet}
use soroban_upgrades.Artifact.{TypeReference}
use soroban_upgrades.Report.{ImpactStep, step_ord}
use soroban_upgrades.Impact.{
  Pending, follow, push_edges, edges_from, go, push_all, round, max_public_impact_depth,
  max_public_impact_paths, max_public_impact_steps,
}

-- Where the limit is not met, the pushed entries are those of the edges.
In-push_edges :
    (visited : ℕ) (steps : List ImpactStep) (active : BTreeSet String) (edges : List TypeReference)
    (pending : List Pending) (q : Pending)
    → (push_edges visited steps active edges pending).1 ≡ false
    → In q (push_edges visited steps active edges pending).0
      ↔ (In q pending ⊎ ((e : TypeReference) × In e edges × (q ≡ follow steps active e)))
unfolding push_edges
In-push_edges visited steps active [] pending q h =
    (inl, λ m. elim m [ inl a ↦ a | inr b ↦ absurd b.1 ])
In-push_edges visited steps active (e ∷ edges) pending q h =
    elim (Bool-cases (leb max_public_impact_steps (length pending + visited))) [
      | inl full ↦ absurd (ground arith)
      | inr room ↦
          let rest =
            In-push_edges visited steps active edges (follow steps active e ∷ pending) q
              (ground arith) in
          rw room (
            λ m. elim (rest.0 m) [
              | inl (inl same) ↦ inr (e, inl refl, same)
              | inl (inr old) ↦ inl old
              | inr (d, i, same) ↦ inr (d, inr i, same)
            ],
            λ m. elim m [
              | inl old ↦ rest.1 (inl (inr old))
              | inr (d, inl first, same) ↦
                  rest.1 (inl (inl (same ∙ ap (follow steps active) first)))
              | inr (d, inr i, same) ↦ rest.1 (inr (d, i, same))
            ],
          )
    ]

module _ (references : List TypeReference) (target_type : String) where
  -- `e` is an edge out of the type `current`.
  abbrev pub IsEdge : String → TypeReference → Type 0
  IsEdge current e = In e references × (e.owner_type ≡ current)

  In-edges_from :
      (current : String) (e : TypeReference)
      → In e (edges_from references current) ↔ IsEdge current e
  In-edges_from current e =
      let kept =
        In-filter (λ (d : TypeReference). str_eq d.owner_type current) e (reverse references) in
      let same = eq_iff e.owner_type current in
      let turned = In-reverse e references in
      (λ m. (turned.0 (kept.0 m).0, same.0 (kept.0 m).1), λ (i, o). kept.1 (turned.1 i, same.1 o))

  -- A round that meets no limit: it records a route, skips a type on its own route, or opens a type.
  pub data Round (p : Pending) (rest : List Pending) (result : BTreeSet (List ImpactStep))
      (pending : List Pending) (result' : BTreeSet (List ImpactStep)) : Type 0 where
    hit :
        p.current ≡ target_type
        → pending ≡ rest
        → result' ≡ BTreeSet.insert p.steps result
        → Round p rest result pending result'
    skip :
        p.current ≢ target_type
        → In p.current p.active_types
        → pending ≡ rest
        → result' ≡ result
        → Round p rest result pending result'
    expand :
        p.current ≢ target_type
        → ¬ In p.current p.active_types
        → ((q : Pending)
            → In q pending ↔ (
                In q rest
                ⊎ ((e : TypeReference) × IsEdge p.current e
                    × (q ≡ follow p.steps (BTreeSet.insert p.current p.active_types) e))))
        → result' ≡ result
        → Round p rest result pending result'

  In-push_all :
      (visited : ℕ) (p : Pending) (rest : List Pending) (result : BTreeSet (List ImpactStep))
      (pending : List Pending) (result' : BTreeSet (List ImpactStep)) (q : Pending)
      → push_all references target_type visited p rest result ≡ go pending result'
      → In q pending ↔ (
          In q rest
          ⊎ ((e : TypeReference) × IsEdge p.current e
              × (q ≡ follow p.steps (BTreeSet.insert p.current p.active_types) e)))
  unfolding push_all
  In-push_all visited p rest result pending result' q h =
      let active = BTreeSet.insert p.current p.active_types in
      let edges = edges_from references p.current in
      let pushed = push_edges visited p.steps active edges rest in
      let ok' : pushed.1 ≡ false = ground arith in
      let same : pushed.0 ≡ pending = ground arith in
      let members = In-push_edges visited p.steps active edges rest q ok' in
      (
        λ m. elim (members.0 (subst (In q) (sym same) m)) [
          | inl old ↦ inl old
          | inr (e, i, r) ↦ inr (e, (In-edges_from p.current e).0 i, r)
        ],
        λ m. subst (In q) same (elim m [
          | inl old ↦ members.1 (inl old)
          | inr (e, i, r) ↦ members.1 (inr (e, (In-edges_from p.current e).1 i, r))
        ]),
      )

  result-push_all :
      (visited : ℕ) (p : Pending) (rest : List Pending) (result : BTreeSet (List ImpactStep))
      (pending : List Pending) (result' : BTreeSet (List ImpactStep))
      → push_all references target_type visited p rest result ≡ go pending result'
      → result' ≡ result
  unfolding push_all
  result-push_all visited p rest result pending result' h = ground arith

  module _ (visited : ℕ) (p : Pending) (rest : List Pending) (result : BTreeSet (List ImpactStep))
      (pending : List Pending) (result' : BTreeSet (List ImpactStep))
      (h : round references target_type visited p rest result ≡ go pending result') where
    pub round_limits :
        (visited ≤ max_public_impact_steps)
        × (length p.steps ≤ max_public_impact_depth)
        × (length result < max_public_impact_paths)
    unfolding round
    round_limits = ground arith

    pub advance_lem : Round p rest result pending result'
    unfolding round
    advance_lem = elim (Bool-cases (str_eq p.current target_type)) [
      | inl same ↦ hit ((eq_iff p.current target_type).0 same) (ground arith) (ground arith)
      | inr other ↦
          let ne : p.current ≢ target_type = λ e. ground (arith, eq_iff p.current target_type) in
          elim (Bool-cases (BTreeSet.contains p.current p.active_types)) [
            | inl old ↦
                skip ne ((BTreeSet.contains_iff p.current p.active_types).0 old) (ground arith)
                  (ground arith)
            | inr new ↦
                let pushed : push_all references target_type visited p rest result
                    ≡ go pending result' =
                  ground arith in
                expand ne (λ m. ground (arith, BTreeSet.contains_iff p.current p.active_types))
                  (λ q. In-push_all visited p rest result pending result' q pushed)
                  (result-push_all visited p rest result pending result' pushed)
          ]
    ]
