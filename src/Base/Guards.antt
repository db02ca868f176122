-- ===== src/Base/Guards.antt =====
-- When a sequence of tests, each of which may return an error, comes to its end.
use soroban_upgrades.Base.{
  Bool, false, ◌≡◌, refl, ◌↔◌, List, [], ◌∷◌, In, arith, inl, inr, subst, sym,
}
use soroban_upgrades.Base.Result.{Error, Result, ok, err, ◌>>◌, ◌>>=◌, fail_if, for_each, >>-eq-ok}

-- The tests succeed exactly where a condition holds.
pub record OkIff (tests : Result (Unit {0})) (P : Type 0) : Type 0 where
  pub iff : (tests ≡ ok tt) ↔ P

pub itself : (tests : Result (Unit {0})) → OkIff tests (tests ≡ ok tt)
itself tests = record { iff = (λ h. h, λ h. h) }

ok_injective : {A : Type 0} {a b : A} → ok a ≡ ok b → a ≡ b
ok_injective h = cc

infixl 5 ◌then◌
pub ◌then◌ :
    {P Q : Type 0} {m k : Result (Unit {0})} → OkIff m P → OkIff k Q → OkIff (m >> k) (P × Q)
◌then◌ {m = m} {k = k} p q = record { iff = ground (arith, >>-eq-ok m k, p.iff, q.iff) }

pub unless : (test : Bool) (e : Error) → OkIff (fail_if test e) (test ≡ false)
unless test e = record { iff = ground arith }

pub meaning : {P Q : Type 0} {m : Result (Unit {0})} → P ↔ Q → OkIff m P → OkIff m Q
meaning (f, g) p = record { iff = (λ h. f (p.iff.0 h), λ q. p.iff.1 (g q)) }

pub each :
    {A : Type 0} {f : A → Result (Unit {0})} {P : A → Type 0}
    → ((a : A) → OkIff (f a) (P a))
    → (xs : List A) → OkIff (for_each f xs) ((a : A) → In a xs → P a)
each {f = f} round [] = record { iff = (λ _ a m. absurd m, λ _. refl) }
each {f = f} {P = P} round (x ∷ xs) =
    let rest = each {f = f} {P = P} round xs in
    let seq = >>-eq-ok (f x) (for_each f xs) {b = tt} in
    record {
      iff = (
        λ h a m. elim m [
          | inl e ↦ subst P (sym e) ((round x).iff.0 (seq.0 h).0)
          | inr n ↦ rest.iff.0 (seq.0 h).1 a n
        ],
        λ h. seq.1 ((round x).iff.1 (h x (inl refl)), rest.iff.1 (λ a m. h a (inr m))),
      );
    }

-- A value that is computed first, and tests on it.
pub bind :
    {A : Type 0} (m : Result A) {f : A → Result (Unit {0})} {P : A → Type 0}
    → ((a : A) → OkIff (f a) (P a))
    → OkIff (m >>= f) ((a : A) × (m ≡ ok a) × P a)
bind (ok a) {f = f} {P = P} tests = record {
  iff = (
    λ h. (a, refl, (tests a).iff.0 h),
    λ (b, e, q). (tests a).iff.1 (subst P (sym (ok_injective e)) q),
  );
}
bind (err e) tests = record { iff = (λ h. cc, λ (a, h, q). cc) }
