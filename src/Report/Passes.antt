-- ===== src/Report/Passes.antt =====
-- When a list of findings has no error, by how the checks put the list together.
use soroban_upgrades.Base.{
  Bool, true, false, ◌≡◌, ◌↔◌, List, [], ◌∷◌, ◌++◌, In, flat_map, if◌then◌else◌, any-false_iff,
  any-flat_map, any-append, arith,
}
use soroban_upgrades.Report.{Finding, blocks, is_error}

-- The list has no error exactly where a condition holds.
pub record PassesIff (findings : List Finding) (P : Type 0) : Type 0 where
  pub iff : (blocks findings ≡ false) ↔ P

pub none_passes : PassesIff [] (Unit {0})
none_passes = record { iff = ground arith }

pub append_passes :
    {P Q : Type 0} {xs ys : List Finding}
    → PassesIff xs P
    → PassesIff ys Q
    → PassesIff (xs ++ ys) (P × Q)
append_passes {xs = xs} {ys = ys} p q = record {
  iff = rw (any-append is_error xs ys) (ground (arith, p.iff, q.iff));
}

-- Where a condition decides between two lists.
pub if_passes :
    {P Q : Type 0} {xs ys : List Finding} (test : Bool)
    → PassesIff xs P
    → PassesIff ys Q
    → PassesIff (if test then xs else ys) ((test ≡ true → P) × (test ≡ false → Q))
if_passes true p q = record { iff = ground (arith, p.iff, q.iff) }
if_passes false p q = record { iff = ground (arith, p.iff, q.iff) }

-- A finding that is pushed under a test.
pub unless_passes :
    (f : Finding) (test : Bool)
    → is_error f ≡ true
    → PassesIff (if test then f ∷ [] else []) (test ≡ false)
unless_passes f test e = record { iff = ground arith }

pub error_passes : (f : Finding) → is_error f ≡ true → PassesIff (f ∷ []) ⊥
error_passes f e = record { iff = ground arith }

-- An error or a lesser finding, by a test.
pub either_passes :
    (f g : Finding) {test : Bool}
    → is_error f ≡ true
    → is_error g ≡ false
    → PassesIff (if test then f ∷ [] else g ∷ []) (test ≡ false)
either_passes f g {test} e h = record { iff = ground arith }

-- A loop over a collection passes where each round does.
pub each_passes :
    {A : Type 0} {f : A → List Finding} {P : A → Type 0}
    → ((a : A) → PassesIff (f a) (P a))
    → (xs : List A) → PassesIff (flat_map f xs) ((a : A) → In a xs → P a)
each_passes {f = f} round xs =
    let (there, back) = any-false_iff (λ a. blocks (f a)) xs in
    record {
      iff =
          rw (any-flat_map is_error f xs)
            (λ h a m. (round a).iff.0 (there h a m), λ h. back (λ a m. (round a).iff.1 (h a m)));
    }

-- A condition may be replaced by an equivalent one.
pub same_condition : {P Q : Type 0} {xs : List Finding} → P ↔ Q → PassesIff xs P → PassesIff xs Q
same_condition (h, k) p = record { iff = (λ e. h (p.iff.0 e), λ q. p.iff.1 (k q)) }
