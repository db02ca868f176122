-- ===== src/Base/Sort.antt =====
-- `slice::sort_by`: a stable sort. An element is inserted before those that are not less than it,
-- from the back, so equal elements keep their order.
use soroban_upgrades.Base.{
  Ordering, ◌≡◌, ◌≢◌, refl, ◌↔◌, ◌⊎◌, List, [], ◌∷◌, In, All, any, Bool, true, filter, arith,
}
use soroban_upgrades.Base.Order.{reverse_cmp}
use mathlib.Core.List.{Perm}
use mathlib.Core.List.Perm

module _ {A : Type 0} (cmp : A → A → Ordering) where
  unfoldable pub insert : A → List A → List A
  insert a [] = a ∷ []
  insert a (x ∷ xs) = elim (cmp a x) [ Ordering.gt ↦ x ∷ insert a xs | _ ↦ a ∷ x ∷ xs ]

  unfoldable pub sort_by : List A → List A
  unfolding insert
  sort_by [] = []
  sort_by (x ∷ xs) = insert x (sort_by xs)

  insert-perm : (a : A) (xs : List A) → Perm (insert a xs) (a ∷ xs)
  unfolding insert
  insert-perm a [] = Perm.refl _
  insert-perm a (x ∷ xs) =
      elim (cmp a x)
        as (λ o. Perm (elim o [ Ordering.gt ↦ x ∷ insert a xs | _ ↦ a ∷ x ∷ xs ]) (a ∷ x ∷ xs)) [
          | Ordering.lt ↦ Perm.refl _
          | Ordering.eq ↦ Perm.refl _
          | Ordering.gt ↦ Perm.trans (Perm.cons x (insert-perm a xs)) (Perm.swap _ _ _)
        ]

  -- The result is a rearrangement of the input.
  pub sort_by-perm : (xs : List A) → Perm (sort_by xs) xs
  unfolding sort_by
  sort_by-perm [] = Perm.refl _
  sort_by-perm (x ∷ xs) = Perm.trans (insert-perm x (sort_by xs)) (Perm.cons x (sort_by-perm xs))

  In-insert : (b a : A) (xs : List A) → In b (insert a xs) ↔ ((b ≡ a) ⊎ In b xs)
  unfolding insert
  In-insert b a [] = ground arith
  In-insert b a (x ∷ xs) = ground (arith, In-insert b a xs)

  pub In-sort_by : (b : A) (xs : List A) → In b (sort_by xs) ↔ In b xs
  unfolding sort_by
  In-sort_by b [] = ground arith
  In-sort_by b (x ∷ xs) = ground (arith, In-insert b x (sort_by xs), In-sort_by b xs)

  any-insert : (p : A → Bool) (a : A) (xs : List A) → any p (insert a xs) ≡ any p (a ∷ xs)
  unfolding insert
  any-insert p a [] = refl
  any-insert p a (x ∷ xs) = ground (arith, any-insert p a xs)

  pub any-sort_by : (p : A → Bool) (xs : List A) → any p (sort_by xs) ≡ any p xs
  unfolding sort_by
  any-sort_by p [] = refl
  any-sort_by p (x ∷ xs) = ground (arith, any-insert p x (sort_by xs), any-sort_by p xs)

  module _ (p : A → Bool)
      (alike : (a x : A) → p a ≡ true → p x ≡ true → cmp a x ≢ Ordering.gt) where
    filter-insert : (a : A) (xs : List A) → filter p (insert a xs) ≡ filter p (a ∷ xs)
    unfolding insert
    filter-insert a [] = refl
    filter-insert a (x ∷ xs) = ground (arith, filter-insert a xs, alike a x)

    -- Elements that a test takes, none of them greater than another, keep their order.
    pub filter-sort_by : (xs : List A) → filter p (sort_by xs) ≡ filter p xs
    unfolding sort_by
    filter-sort_by [] = refl
    filter-sort_by (x ∷ xs) = ground (arith, filter-insert x (sort_by xs), filter-sort_by xs)

  -- In no position does a greater element stand before a smaller one.
  abbrev pub IsSorted : List A → Type 0
  IsSorted [] = Unit
  IsSorted (x ∷ xs) = All (λ y. cmp y x ≢ Ordering.lt) xs × IsSorted xs

  module _ (swap : (a b : A) → cmp b a ≡ reverse_cmp (cmp a b))
      (not_lt_trans : (a b c : A)
        → cmp b a ≢ Ordering.lt
        → cmp c b ≢ Ordering.lt
        → cmp c a ≢ Ordering.lt) where
    All-insert : (P : A → Type 0) (a : A) (xs : List A) → P a → All P xs → All P (insert a xs)
    unfolding insert
    All-insert P a [] h k = (h, tt)
    All-insert P a (x ∷ xs) h k = ground (arith, All-insert P a xs)

    All-not_lt :
        (a x : A) (xs : List A)
        → cmp x a ≢ Ordering.lt
        → All (λ y. cmp y x ≢ Ordering.lt) xs
        → All (λ y. cmp y a ≢ Ordering.lt) xs
    All-not_lt a x [] h k = tt
    All-not_lt a x (y ∷ xs) h k = (not_lt_trans a x y h k.0, All-not_lt a x xs h k.1)

    insert-IsSorted : (a : A) (xs : List A) → IsSorted xs → IsSorted (insert a xs)
    unfolding insert
    insert-IsSorted a [] h = (tt, tt)
    insert-IsSorted a (x ∷ xs) h = insert_cases (cmp a x) refl (insert-IsSorted a xs h.1)
      where
        insert_cases :
            (o : Ordering)
            → cmp a x ≡ o
            → IsSorted (insert a xs)
            → IsSorted (elim o [ Ordering.gt ↦ x ∷ insert a xs | _ ↦ a ∷ x ∷ xs ])
        insert_cases Ordering.lt e r =
            ((λ k. cc (swap a x), All-not_lt a x xs (λ k. cc (swap a x)) h.0), h)
        insert_cases Ordering.eq e r =
            ((λ k. cc (swap a x), All-not_lt a x xs (λ k. cc (swap a x)) h.0), h)
        insert_cases Ordering.gt e r =
            (All-insert (λ y. cmp y x ≢ Ordering.lt) a xs (λ k. cc) h.0, r)

    -- The result is in order, where the comparison is a total preorder.
    pub sort_by-IsSorted : (xs : List A) → IsSorted (sort_by xs)
    unfolding sort_by
    sort_by-IsSorted [] = tt
    sort_by-IsSorted (x ∷ xs) = insert-IsSorted x (sort_by xs) (sort_by-IsSorted xs)
