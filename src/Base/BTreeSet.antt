-- ===== src/Base/BTreeSet.antt =====
-- `std::collections::BTreeSet`: the members in ascending order, each once.
use soroban_upgrades.Base.{
  Ordering, ◌≡◌, refl, sym, ap₂, subst, ◌↔◌, ◌⊎◌, inl, inr, Bool, true, false, ◌||◌, List, [], ◌∷◌,
  In, All, filter, arith,
}
use soroban_upgrades.Base.Order.{Ord}

abbrev pub BTreeSet {ℓ} : Type ℓ → Type ℓ
BTreeSet A = List A

abbrev pub is_eq : Ordering → Bool
is_eq Ordering.eq = true
is_eq _ = false

module _ {A : Type 0} ⦃o : Ord A⦄ where
  unfoldable pub contains : A → BTreeSet A → Bool
  contains a [] = false
  contains a (x ∷ xs) = is_eq (o.cmp a x) || contains a xs

  -- An equal member is kept as it is.
  unfoldable pub insert : A → BTreeSet A → BTreeSet A
  insert a [] = a ∷ []
  insert a (x ∷ xs) = elim (o.cmp a x) [
    | Ordering.lt ↦ a ∷ x ∷ xs
    | Ordering.eq ↦ x ∷ xs
    | Ordering.gt ↦ x ∷ insert a xs
  ]

  -- `extend`
  unfoldable pub extend : BTreeSet A → List A → BTreeSet A
  extend s [] = s
  extend s (x ∷ xs) = extend (insert x s) xs

  -- `into_iter().collect::<BTreeSet<_>>()`
  unfoldable pub collect : List A → BTreeSet A
  unfolding extend
  collect xs = extend [] xs

  -- `intersection`, in ascending order
  unfoldable pub intersection : BTreeSet A → BTreeSet A → BTreeSet A
  unfolding contains
  intersection s t = filter (λ a. contains a t) s

  abbrev pub IsSorted : BTreeSet A → Type 0
  IsSorted [] = Unit
  IsSorted (x ∷ xs) = All (λ y. o.cmp x y ≡ Ordering.lt) xs × IsSorted xs

  pub contains_iff : (a : A) (s : BTreeSet A) → (contains a s ≡ true) ↔ In a s
  unfolding contains
  contains_iff a [] = (λ h. cc, λ h. absurd h)
  contains_iff a (x ∷ xs) = ground (arith, contains_iff a xs, o.eq_of_cmp a x, o.cmp_refl a)

  pub In-insert : (b a : A) (s : BTreeSet A) → In b (insert a s) ↔ ((b ≡ a) ⊎ In b s)
  unfolding insert
  In-insert b a [] = ground arith
  In-insert b a (x ∷ xs) = ground (arith, In-insert b a xs, o.eq_of_cmp a x)

  pub In-extend : (b : A) (s : BTreeSet A) (xs : List A) → In b (extend s xs) ↔ (In b s ⊎ In b xs)
  unfolding extend
  In-extend b s [] = ground arith
  In-extend b s (x ∷ xs) = ground (arith, In-extend b (insert x s) xs, In-insert b x s)

  pub In-collect : (b : A) (xs : List A) → In b (collect xs) ↔ In b xs
  unfolding collect
  In-collect b xs = ground (arith, In-extend b [] xs)

  pub In-intersection : (a : A) (s t : BTreeSet A) → In a (intersection s t) ↔ (In a s × In a t)
  unfolding intersection
  In-intersection a [] t = (λ h. absurd h, λ h. absurd h.0)
  In-intersection a (x ∷ s) t = ground (arith, In-intersection a s t, contains_iff x t)

  All-insert :
      (x a : A) (s : BTreeSet A)
      → o.cmp x a ≡ Ordering.lt
      → All (λ y. o.cmp x y ≡ Ordering.lt) s
      → All (λ y. o.cmp x y ≡ Ordering.lt) (insert a s)
  unfolding insert
  All-insert x a [] h k = (h, tt)
  All-insert x a (y ∷ s) h k = ground (arith, All-insert x a s h)

  All-trans :
      (x a : A) (s : BTreeSet A)
      → o.cmp x a ≡ Ordering.lt
      → All (λ y. o.cmp a y ≡ Ordering.lt) s
      → All (λ y. o.cmp x y ≡ Ordering.lt) s
  All-trans x a [] h k = tt
  All-trans x a (y ∷ s) h k = (o.cmp_trans x a y h k.0, All-trans x a s h k.1)

  pub insert-IsSorted : (a : A) (s : BTreeSet A) → IsSorted s → IsSorted (insert a s)
  unfolding insert
  insert-IsSorted a [] h = (tt, tt)
  insert-IsSorted a (x ∷ s) h =
      ground (arith, insert-IsSorted a s, All-insert x a s, All-trans a x s, o.cmp_swap a x)

  pub extend-IsSorted : (s : BTreeSet A) (xs : List A) → IsSorted s → IsSorted (extend s xs)
  unfolding extend
  extend-IsSorted s [] h = h
  extend-IsSorted s (x ∷ xs) h = extend-IsSorted (insert x s) xs (insert-IsSorted x s h)

  pub collect-IsSorted : (xs : List A) → IsSorted (collect xs)
  unfolding collect
  collect-IsSorted xs = extend-IsSorted [] xs tt

  pub lt_of_In :
      (x y : A) (s : BTreeSet A)
      → All (λ z. o.cmp x z ≡ Ordering.lt) s
      → In y s
      → o.cmp x y ≡ Ordering.lt
  lt_of_In x y [] h m = absurd m
  lt_of_In x y (z ∷ s) h (inl e) = rw e h.0
  lt_of_In x y (z ∷ s) h (inr m) = lt_of_In x y s h.1 m

  -- The head of a sorted set with the members of another sorted set is the head of that one.
  head_eq :
      (x y : A) (s t : BTreeSet A)
      → IsSorted (x ∷ s)
      → IsSorted (y ∷ t)
      → In x (y ∷ t)
      → In y (x ∷ s)
      → x ≡ y
  head_eq x y s t hs ht (inl e) n = e
  head_eq x y s t hs ht (inr m) n =
      ground (arith, lt_of_In y x t ht.0 m, lt_of_In x y s hs.0, o.cmp_swap x y, o.cmp_refl x)

  tail_In :
      (x a : A) (s t : BTreeSet A)
      → IsSorted (x ∷ s)
      → (In a (x ∷ s) → In a (x ∷ t))
      → In a s
      → In a t
  tail_In x a s t hs f m = ground (arith, f (inr m), lt_of_In x a s hs.0 m, o.cmp_refl x)

  -- Sorted sets with the same members are equal.
  pub eq_of_same_members :
      (s t : BTreeSet A) → IsSorted s → IsSorted t → ((a : A) → In a s ↔ In a t) → s ≡ t
  eq_of_same_members [] [] hs ht h = refl
  eq_of_same_members [] (y ∷ t) hs ht h = absurd ((h y).1 (inl refl))
  eq_of_same_members (x ∷ s) [] hs ht h = absurd ((h x).0 (inl refl))
  eq_of_same_members (x ∷ s) (y ∷ t) hs ht h =
      let e = head_eq x y s t hs ht ((h x).0 (inl refl)) ((h y).1 (inl refl)) in
      let ht' : IsSorted (x ∷ t) = rw e ht in
      let h' : (a : A) → In a (x ∷ s) ↔ In a (x ∷ t) =
        λ a. subst (λ z. In a (x ∷ s) ↔ In a (z ∷ t)) (sym e) (h a) in
      ap₂ ◌∷◌ e (
        eq_of_same_members s t hs.1 ht.1
          (λ a. (tail_In x a s t hs (h' a).0, tail_In x a t s ht' (h' a).1)))
