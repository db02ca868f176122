-- ===== src/Base/Lists.antt =====
-- Lists measured by native numbers, the iterator adaptors that the program uses, and membership
-- as a recursive predicate, which the tactics read.
use Prim.Native.Nat.{ℕ, zero, suc, ◌+◌, ◌<◌}
use mathlib.Core.Path.{◌≡◌, refl, ap, ◌∙◌}
use mathlib.Core.Logic.{◌⊎◌, inl, inr, ◌↔◌}
use mathlib.Core.Bool.{Bool, true, false, ◌||◌, ◌&&◌}
use mathlib.Core.List.{List, [], ◌∷◌, ◌++◌, map}
use mathlib.Core.Option.{Option, none, some}
use native.Mathlib.Omega.{arith}
use soroban_upgrades.Base.Tests.{if◌then◌else◌, Bool-cases}

module _ {ℓ} {A : Type ℓ} where
  abbrev pub length : List A → ℕ
  length [] = 0
  length (x ∷ xs) = suc (length xs)

  abbrev pub get_elem? : List A → ℕ → Option A
  get_elem? [] i = none
  get_elem? (x ∷ xs) zero = some x
  get_elem? (x ∷ xs) (suc i) = get_elem? xs i

  -- `Iterator::any` and `Iterator::all`
  abbrev pub any : (A → Bool) → List A → Bool
  any p [] = false
  any p (x ∷ xs) = p x || any p xs

  abbrev pub all : (A → Bool) → List A → Bool
  all p [] = true
  all p (x ∷ xs) = p x && all p xs

  -- `Iterator::filter`
  abbrev pub filter : (A → Bool) → List A → List A
  filter p [] = []
  filter p (x ∷ xs) = if p x then x ∷ filter p xs else filter p xs

  abbrev pub is_empty : List A → Bool
  is_empty [] = true
  is_empty (x ∷ xs) = false

  pub length-append : (xs ys : List A) → length (xs ++ ys) ≡ length xs + length ys
  length-append [] ys = omega arith
  length-append (x ∷ xs) ys = omega (arith, length-append xs ys)

  pub any-append : (p : A → Bool) (xs ys : List A) → any p (xs ++ ys) ≡ (any p xs || any p ys)
  any-append p [] ys = refl
  any-append p (x ∷ xs) ys = ground (arith, any-append p xs ys)

module _ {A : Type 0} where
  abbrev pub In : A → List A → Type 0
  In a [] = ⊥
  In a (x ∷ xs) = (a ≡ x) ⊎ In a xs

  abbrev pub All : (A → Type 0) → List A → Type 0
  All P [] = Unit
  All P (x ∷ xs) = P x × All P xs

  pub In-append : (a : A) (xs ys : List A) → In a (xs ++ ys) ↔ (In a xs ⊎ In a ys)
  In-append a [] ys = ground arith
  In-append a (x ∷ xs) ys = ground (arith, In-append a xs ys)

  -- A test that fails on a list fails on each member, and one that succeeds has a witness.
  pub any-false : (p : A → Bool) (xs : List A) (a : A) → any p xs ≡ false → In a xs → p a ≡ false
  any-false p [] a h m = absurd m
  any-false p (x ∷ xs) a h (inl e) = ground arith
  any-false p (x ∷ xs) a h (inr m) = any-false p xs a (ground arith) m

  pub any-false_iff :
      (p : A → Bool) (xs : List A) → (any p xs ≡ false) ↔ ((a : A) → In a xs → p a ≡ false)
  any-false_iff p xs = (λ h a m. any-false p xs a h m, λ h. all_miss p xs h)
    where
      all_miss : (q : A → Bool) (ys : List A) → ((a : A) → In a ys → q a ≡ false) → any q ys ≡ false
      all_miss q [] h = refl
      all_miss q (y ∷ ys) h = ground (arith, h y (inl refl), all_miss q ys (λ a m. h a (inr m)))

  pub any-true : (p : A → Bool) (xs : List A) (a : A) → In a xs → p a ≡ true → any p xs ≡ true
  any-true p [] a m e = absurd m
  any-true p (x ∷ xs) a (inl q) e = ground arith
  any-true p (x ∷ xs) a (inr m) e = ground (arith, any-true p xs a m e)

  pub any_witness :
      (p : A → Bool) (xs : List A) → any p xs ≡ true → (a : A) × In a xs × (p a ≡ true)
  any_witness p [] h = cc
  any_witness p (x ∷ xs) h = elim (Bool-cases (p x)) [
    | inl hit ↦ (x, inl refl, hit)
    | inr miss ↦ let (a, m, e) = any_witness p xs (ground arith) in (a, inr m, e)
  ]

pub any-true_iff :
    {A : Type 0} (p : A → Bool) (xs : List A)
    → (any p xs ≡ true) ↔ ((a : A) × In a xs × (p a ≡ true))
any-true_iff p xs = (any_witness p xs, λ (a, m, e). any-true p xs a m e)

abbrev pub cons? {ℓ} : {B : Type ℓ} → Option B → List B → List B
cons? none bs = bs
cons? (some b) bs = b ∷ bs

module _ {ℓ κ} {A : Type ℓ} {B : Type κ} where
  -- `Iterator::filter_map`
  abbrev pub filter_map : (A → Option B) → List A → List B
  filter_map f [] = []
  filter_map f (x ∷ xs) = cons? (f x) (filter_map f xs)

  -- `Iterator::flat_map`, and a `for` loop whose body appends to a list.
  abbrev pub flat_map : (A → List B) → List A → List B
  flat_map f [] = []
  flat_map f (x ∷ xs) = f x ++ flat_map f xs

pub any-flat_map {ℓ κ} :
    {A : Type ℓ} {B : Type κ} (p : B → Bool) (f : A → List B) (xs : List A)
    → any p (flat_map f xs) ≡ any (λ a. any p (f a)) xs
any-flat_map p f [] = refl
any-flat_map p f (x ∷ xs) =
    any-append p (f x) (flat_map f xs) ∙ ap (λ b. any p (f x) || b) (any-flat_map p f xs)

pub flat_map-map {ℓ κ μ} :
    {A : Type ℓ} {B : Type κ} {C : Type μ} (g : B → List C) (f : A → B) (xs : List A)
    → flat_map g (map f xs) ≡ flat_map (λ a. g (f a)) xs
flat_map-map g f [] = refl
flat_map-map g f (x ∷ xs) = ap (λ r. g (f x) ++ r) (flat_map-map g f xs)

pub any-map {ℓ κ} :
    {A : Type ℓ} {B : Type κ} (p : B → Bool) (f : A → B) (xs : List A)
    → any p (map f xs) ≡ any (λ a. p (f a)) xs
any-map p f [] = refl
any-map p f (x ∷ xs) = ap (λ b. p (f x) || b) (any-map p f xs)

-- `iter().enumerate()`, from a number on.
abbrev pub enumerate_from {ℓ} : {A : Type ℓ} → ℕ → List A → List (ℕ × A)
enumerate_from n [] = []
enumerate_from n (x ∷ xs) = (n, x) ∷ enumerate_from (suc n) xs

pub List-cases {ℓ} :
    {A : Type ℓ} (xs : List A) → (xs ≡ []) ⊎ ((x : A) × (rest : List A) × (xs ≡ x ∷ rest))
List-cases [] = inl refl
List-cases (x ∷ xs) = inr (x, xs, refl)

pub get_elem?-lt {ℓ} :
    {A : Type ℓ} (xs : List A) (i : ℕ) → i < length xs → (a : A) × (get_elem? xs i ≡ some a)
get_elem?-lt [] i h = absurd (omega arith)
get_elem?-lt (x ∷ xs) zero h = (x, refl)
get_elem?-lt (x ∷ xs) (suc i) h = get_elem?-lt xs i (omega arith)

-- `Iterator::rev`
module _ {A : Type 0} where
  abbrev pub reverse_onto : List A → List A → List A
  reverse_onto ys [] = ys
  reverse_onto ys (x ∷ xs) = reverse_onto (x ∷ ys) xs

  abbrev pub reverse : List A → List A
  reverse xs = reverse_onto [] xs

  In-reverse_onto : (a : A) (ys xs : List A) → In a (reverse_onto ys xs) ↔ (In a ys ⊎ In a xs)
  In-reverse_onto a ys [] = ground arith
  In-reverse_onto a ys (x ∷ xs) = ground (arith, In-reverse_onto a (x ∷ ys) xs)

  pub In-reverse : (a : A) (xs : List A) → In a (reverse xs) ↔ In a xs
  In-reverse a xs = ground (arith, In-reverse_onto a [] xs)

  pub In-filter :
      (p : A → Bool) (a : A) (xs : List A) → In a (filter p xs) ↔ (In a xs × (p a ≡ true))
  In-filter p a [] = (λ m. absurd m, λ h. absurd h.0)
  In-filter p a (x ∷ xs) = elim (Bool-cases (p x)) [
    | inl hit ↦ ground (arith, In-filter p a xs)
    | inr miss ↦ ground (arith, In-filter p a xs)
  ]
