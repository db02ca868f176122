-- ===== src/Base/Order.antt =====
-- The standard library's `Ord`: a comparison with the laws that the ordered collections rest on,
-- and the orders that `derive(Ord)` builds: of numbers, texts, options, pairs and vectors, and of a
-- record or an enum through an injective key.
use Prim.Native.Char.{code}
use Prim.Native.String.{compare as compare_text}
use Prim.Native.String.compare as text_clauses
use text.Mathlib.TextPositions.{compare_refl}
use text.Mathlib.TextEquality.{path_by_compare}
use soroban_upgrades.Base.{
  ℕ, String, Ordering, compare, ◌≡◌, refl, ap, arith, List, [], ◌∷◌, Option, none, some,
}

-- `Ordering::reverse`
abbrev pub reverse_cmp : Ordering → Ordering
reverse_cmp Ordering.lt = Ordering.gt
reverse_cmp Ordering.eq = Ordering.eq
reverse_cmp Ordering.gt = Ordering.lt

-- `Ordering::then`
abbrev pub then_cmp : Ordering → Ordering → Ordering
then_cmp Ordering.lt _ = Ordering.lt
then_cmp Ordering.eq o = o
then_cmp Ordering.gt _ = Ordering.gt

pub record Ord {ℓ} (A : Type ℓ) : Type ℓ where
  pub cmp : A → A → Ordering
  pub cmp_refl : (a : A) → cmp a a ≡ Ordering.eq
  pub eq_of_cmp : (a b : A) → cmp a b ≡ Ordering.eq → a ≡ b
  pub cmp_swap : (a b : A) → cmp b a ≡ reverse_cmp (cmp a b)
  pub cmp_trans :
      (a b c : A) → cmp a b ≡ Ordering.lt → cmp b c ≡ Ordering.lt → cmp a c ≡ Ordering.lt

pub nat_cmp_refl : (a : ℕ) → compare a a ≡ Ordering.eq
nat_cmp_refl a = ground arith

pub nat_eq_of_cmp : (a b : ℕ) → compare a b ≡ Ordering.eq → a ≡ b
nat_eq_of_cmp a b h = ground arith

pub nat_cmp_swap : (a b : ℕ) → compare b a ≡ reverse_cmp (compare a b)
nat_cmp_swap a b = ground arith

pub nat_cmp_trans :
    (a b c : ℕ) → compare a b ≡ Ordering.lt → compare b c ≡ Ordering.lt → compare a c ≡ Ordering.lt
nat_cmp_trans a b c h k = ground arith

instance abbrev pub nat_ord : Ord ℕ
nat_ord = record {
  cmp = compare;
  cmp_refl = nat_cmp_refl;
  eq_of_cmp = nat_eq_of_cmp;
  cmp_swap = nat_cmp_swap;
  cmp_trans = nat_cmp_trans;
}

pub text_cmp_swap : (s t : String) → compare_text t s ≡ reverse_cmp (compare_text s t)
text_cmp_swap String.[] String.[] = refl
text_cmp_swap String.[] (String.◌∷◌ d t) = rw (text_clauses.cons-nil d t, text_clauses.nil-cons d t)
text_cmp_swap (String.◌∷◌ c s) String.[] = rw (text_clauses.cons-nil c s, text_clauses.nil-cons c s)
text_cmp_swap (String.◌∷◌ c s) (String.◌∷◌ d t) =
    rw (text_clauses.cons-cons c d s t, text_clauses.cons-cons d c t s)
      (ground (arith, nat_cmp_swap (code c) (code d), text_cmp_swap s t))

pub text_cmp_trans :
    (s t u : String)
    → compare_text s t ≡ Ordering.lt
    → compare_text t u ≡ Ordering.lt
    → compare_text s u ≡ Ordering.lt
text_cmp_trans s String.[] String.[] h k = cc
text_cmp_trans String.[] String.[] u h k = cc
text_cmp_trans (String.◌∷◌ c s) String.[] u h k = cc (text_clauses.cons-nil c s)
text_cmp_trans s (String.◌∷◌ d t) String.[] h k = cc (text_clauses.cons-nil d t)
text_cmp_trans String.[] (String.◌∷◌ d t) (String.◌∷◌ e u) h k = text_clauses.nil-cons e u
text_cmp_trans (String.◌∷◌ c s) (String.◌∷◌ d t) (String.◌∷◌ e u) h k =
    rw (text_clauses.cons-cons c e s u) (
      ground (
        arith,
        text_clauses.cons-cons c d s t,
        text_clauses.cons-cons d e t u,
        nat_cmp_trans (code c) (code d) (code e),
        text_cmp_trans s t u,
      ))

instance abbrev pub string_ord : Ord String
string_ord = record {
  cmp = compare_text;
  cmp_refl = compare_refl;
  eq_of_cmp = path_by_compare;
  cmp_swap = text_cmp_swap;
  cmp_trans = text_cmp_trans;
}

-- `derive(Ord)` on a record or an enum: the order of an injective key, such as the tuple of the
-- fields or the number of the variant.
module _ {A K : Type 0} ⦃o : Ord K⦄ (key : A → K) (inj : (a b : A) → key a ≡ key b → a ≡ b) where
  abbrev pub ord_by : Ord A
  ord_by = record {
    cmp = λ a b. o.cmp (key a) (key b);
    cmp_refl = λ a. o.cmp_refl (key a);
    eq_of_cmp = λ a b h. inj a b (o.eq_of_cmp (key a) (key b) h);
    cmp_swap = λ a b. o.cmp_swap (key a) (key b);
    cmp_trans = λ a b c. o.cmp_trans (key a) (key b) (key c);
  }

-- Pairs, lexicographically.
module _ {A B : Type 0} ⦃o : Ord A⦄ ⦃p : Ord B⦄ where
  abbrev pub pair_cmp : A × B → A × B → Ordering
  pair_cmp (a, b) (c, d) = then_cmp (o.cmp a c) (p.cmp b d)

  pub pair_cmp_refl : (x : A × B) → pair_cmp x x ≡ Ordering.eq
  pair_cmp_refl (a, b) = rw (o.cmp_refl a) (p.cmp_refl b)

  pub pair_eq_of_cmp : (x y : A × B) → pair_cmp x y ≡ Ordering.eq → x ≡ y
  pair_eq_of_cmp (a, b) (c, d) h = ground (arith, o.eq_of_cmp a c, p.eq_of_cmp b d)

  pub pair_cmp_swap : (x y : A × B) → pair_cmp y x ≡ reverse_cmp (pair_cmp x y)
  pair_cmp_swap (a, b) (c, d) = ground (arith, o.cmp_swap a c, p.cmp_swap b d)

  pub pair_cmp_trans :
      (x y z : A × B)
      → pair_cmp x y ≡ Ordering.lt
      → pair_cmp y z ≡ Ordering.lt
      → pair_cmp x z ≡ Ordering.lt
  pair_cmp_trans (a, b) (c, d) (e, f) h k =
      ground (arith, o.cmp_trans a c e, o.eq_of_cmp a c, o.eq_of_cmp c e, p.cmp_trans b d f)

  instance abbrev pub pair_ord : Ord (A × B)
  pair_ord = record {
    cmp = pair_cmp;
    cmp_refl = pair_cmp_refl;
    eq_of_cmp = pair_eq_of_cmp;
    cmp_swap = pair_cmp_swap;
    cmp_trans = pair_cmp_trans;
  }

-- Options, `None` first.
module _ {A : Type 0} ⦃o : Ord A⦄ where
  abbrev pub option_cmp : Option A → Option A → Ordering
  option_cmp none none = Ordering.eq
  option_cmp none (some b) = Ordering.lt
  option_cmp (some a) none = Ordering.gt
  option_cmp (some a) (some b) = o.cmp a b

  pub option_cmp_refl : (x : Option A) → option_cmp x x ≡ Ordering.eq
  option_cmp_refl none = refl
  option_cmp_refl (some a) = o.cmp_refl a

  pub option_eq_of_cmp : (x y : Option A) → option_cmp x y ≡ Ordering.eq → x ≡ y
  option_eq_of_cmp none none h = refl
  option_eq_of_cmp none (some b) h = cc
  option_eq_of_cmp (some a) none h = cc
  option_eq_of_cmp (some a) (some b) h = ap some (o.eq_of_cmp a b h)

  pub option_cmp_swap : (x y : Option A) → option_cmp y x ≡ reverse_cmp (option_cmp x y)
  option_cmp_swap none none = refl
  option_cmp_swap none (some b) = refl
  option_cmp_swap (some a) none = refl
  option_cmp_swap (some a) (some b) = o.cmp_swap a b

  pub option_cmp_trans :
      (x y z : Option A)
      → option_cmp x y ≡ Ordering.lt
      → option_cmp y z ≡ Ordering.lt
      → option_cmp x z ≡ Ordering.lt
  option_cmp_trans none y none h k = ground arith
  option_cmp_trans none y (some c) h k = refl
  option_cmp_trans (some a) none z h k = cc
  option_cmp_trans (some a) (some b) none h k = cc
  option_cmp_trans (some a) (some b) (some c) h k = o.cmp_trans a b c h k

  instance abbrev pub option_ord : Ord (Option A)
  option_ord = record {
    cmp = option_cmp;
    cmp_refl = option_cmp_refl;
    eq_of_cmp = option_eq_of_cmp;
    cmp_swap = option_cmp_swap;
    cmp_trans = option_cmp_trans;
  }

-- Vectors, lexicographically, a proper prefix first.
module _ {A : Type 0} ⦃o : Ord A⦄ where
  abbrev pub list_cmp : List A → List A → Ordering
  list_cmp [] [] = Ordering.eq
  list_cmp [] (b ∷ bs) = Ordering.lt
  list_cmp (a ∷ as') [] = Ordering.gt
  list_cmp (a ∷ as') (b ∷ bs) = then_cmp (o.cmp a b) (list_cmp as' bs)

  pub list_cmp_refl : (xs : List A) → list_cmp xs xs ≡ Ordering.eq
  list_cmp_refl [] = refl
  list_cmp_refl (x ∷ xs) = rw (o.cmp_refl x) (list_cmp_refl xs)

  pub list_eq_of_cmp : (xs ys : List A) → list_cmp xs ys ≡ Ordering.eq → xs ≡ ys
  list_eq_of_cmp [] [] h = refl
  list_eq_of_cmp [] (y ∷ ys) h = cc
  list_eq_of_cmp (x ∷ xs) [] h = cc
  list_eq_of_cmp (x ∷ xs) (y ∷ ys) h = ground (arith, o.eq_of_cmp x y, list_eq_of_cmp xs ys)

  pub list_cmp_swap : (xs ys : List A) → list_cmp ys xs ≡ reverse_cmp (list_cmp xs ys)
  list_cmp_swap [] [] = refl
  list_cmp_swap [] (y ∷ ys) = refl
  list_cmp_swap (x ∷ xs) [] = refl
  list_cmp_swap (x ∷ xs) (y ∷ ys) = ground (arith, o.cmp_swap x y, list_cmp_swap xs ys)

  pub list_cmp_trans :
      (xs ys zs : List A)
      → list_cmp xs ys ≡ Ordering.lt
      → list_cmp ys zs ≡ Ordering.lt
      → list_cmp xs zs ≡ Ordering.lt
  list_cmp_trans xs [] [] h k = cc
  list_cmp_trans [] [] (z ∷ zs) h k = cc
  list_cmp_trans (x ∷ xs) [] (z ∷ zs) h k = cc
  list_cmp_trans xs (y ∷ ys) [] h k = cc
  list_cmp_trans [] (y ∷ ys) (z ∷ zs) h k = refl
  list_cmp_trans (x ∷ xs) (y ∷ ys) (z ∷ zs) h k =
      ground (arith, o.cmp_trans x y z, o.eq_of_cmp x y, o.eq_of_cmp y z, list_cmp_trans xs ys zs)

  instance abbrev pub list_ord : Ord (List A)
  list_ord = record {
    cmp = list_cmp;
    cmp_refl = list_cmp_refl;
    eq_of_cmp = list_eq_of_cmp;
    cmp_swap = list_cmp_swap;
    cmp_trans = list_cmp_trans;
  }
