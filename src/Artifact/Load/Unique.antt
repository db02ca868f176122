-- ===== src/Artifact/Load/Unique.antt =====
-- Members of a specification entry have different names, or the artifact is refused.
use soroban_upgrades.Base.{String, ◌≡◌, refl, subst, ◌↔◌, inl, inr, List, [], ◌∷◌, In, arith}
use soroban_upgrades.Base.Result.{duplicate_spec_member, ok, fail_if, >>-eq-ok, fail_if-eq-ok_iff}
use soroban_upgrades.Base.Order.{string_ord}
use soroban_upgrades.Base.BTreeSet
use soroban_upgrades.Base.BTreeSet.{BTreeSet}
use soroban_upgrades.Artifact.Load.{unique_from, ensure_unique_spec_members}

-- No name stands twice in the list.
abbrev pub HasNoRepeat : List String → Type 0
HasNoRepeat [] = Unit
HasNoRepeat (x ∷ xs) = (¬ In x xs) × HasNoRepeat xs

module _ (kind owner : String) where
  unique_from_iff :
      (seen : BTreeSet String) (names : List String)
      → (unique_from kind owner seen names ≡ ok tt)
        ↔ (((x : String) → In x names → ¬ In x seen) × HasNoRepeat names)
  unfolding unique_from
  unique_from_iff seen [] = (λ _. (λ x m _. absurd m, tt), λ _. refl)
  unique_from_iff seen (n ∷ ns) =
      let seen' = BTreeSet.insert n seen in
      let test = fail_if (BTreeSet.contains n seen) (duplicate_spec_member kind owner n) in
      let split = >>-eq-ok test (unique_from kind owner seen' ns) {b = tt} in
      let tested =
        fail_if-eq-ok_iff (BTreeSet.contains n seen) (duplicate_spec_member kind owner n) in
      let rest = unique_from_iff seen' ns in
      let member = BTreeSet.contains_iff n seen in
      (
        λ h.
            let parts = split.0 h in
            let (avoid, unique) = rest.0 parts.1 in
            let fresh : ¬ In n seen = λ m. ground (arith, member.1 m, tested.0 parts.0) in
            (
              λ x m i. elim m [
                | inl e ↦ fresh (subst (λ y. In y seen) e i)
                | inr later ↦ avoid x later ((BTreeSet.In-insert x n seen).1 (inr i))
              ],
              (λ m. avoid n m ((BTreeSet.In-insert n n seen).1 (inl refl)), unique),
            ),
        λ (avoid, unique). split.1 (
          ground (arith, member, avoid n (inl refl), tested),
          rest.1 (
            λ x m i. elim ((BTreeSet.In-insert x n seen).0 i) [
              | inl e ↦ unique.0 (subst (λ y. In y ns) e m)
              | inr old ↦ avoid x (inr m) old
            ],
            unique.1,
          ),
        ),
      )

  -- For any names, the test succeeds exactly where no name stands twice in the list.
  pub ensure_unique_spec_members_iff :
      (names : List String)
      → (ensure_unique_spec_members kind owner names ≡ ok tt) ↔ HasNoRepeat names
  unfolding ensure_unique_spec_members
  ensure_unique_spec_members_iff names =
      let h = unique_from_iff [] names in (λ e. (h.0 e).1, λ u. h.1 (λ x m i. i, u))
