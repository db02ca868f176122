-- ===== src/Cli/Guards.antt =====
-- When a sequence of tests of the command line, each of which may fail, comes to its end.
use soroban_upgrades.Base.{
  arith, ◌||◌, Bool, true, false, not, ◌≡◌, refl, sym, subst, ap, ◌↔◌, String, Option, none, some,
  same, same_iff, is_some_and, str_eq, eq_iff,
}
use soroban_upgrades.Cli.Anyhow.{
  Outcome, done, failed, ◌>>=◌, ◌>>◌, bail_if, bail_if_iff, >>_iff, done_inj,
}

-- The tests succeed exactly where a condition holds.
pub record DoneIff (tests : Outcome (Unit {0})) (P : Type 0) : Type 0 where
  pub iff : (tests ≡ done tt) ↔ P

infixl 5 ◌then◌
pub ◌then◌ :
    {P Q : Type 0} {m k : Outcome (Unit {0})} → DoneIff m P → DoneIff k Q → DoneIff (m >> k) (P × Q)
◌then◌ {m = m} {k = k} p q =
    let (f, g) = >>_iff m k tt in
    record {
      iff = (λ h. let (a, b) = f h in (p.iff.0 a, q.iff.0 b), λ (a, b). g (p.iff.1 a, q.iff.1 b));
    }

pub meaning : {P Q : Type 0} {m : Outcome (Unit {0})} → P ↔ Q → DoneIff m P → DoneIff m Q
meaning (f, g) p = record { iff = (λ h. f (p.iff.0 h), λ q. p.iff.1 (g q)) }

pub bind :
    {A : Type 0} (m : Outcome A) {f : A → Outcome (Unit {0})} {P : A → Type 0}
    → ((a : A) → DoneIff (f a) (P a))
    → DoneIff (m >>= f) ((a : A) × (m ≡ done a) × P a)
bind (done a) {P = P} tests = record {
  iff = (
    λ h. (a, refl, (tests a).iff.0 h),
    λ (b, e, q). (tests a).iff.1 (subst P (sym (done_inj e)) q),
  );
}
bind (failed e) tests = record { iff = (λ h. cc, λ (a, h, q). cc) }

not_iff : {P : Type 0} (b : Bool) → (b ≡ true) ↔ P → (not b ≡ false) ↔ P
not_iff true (f, g) = (λ _. f refl, λ _. refl)
not_iff false (f, g) = (λ h. cc, λ p. absurd (false-true (g p)))
  where
    false-true : false ≡ true → ⊥
    false-true h = cc

-- `if !test { bail!(text) }`
pub unless_not :
    {P : Type 0} (test : Bool) (text : String)
    → (test ≡ true) ↔ P
    → DoneIff (bail_if (not test) text) P
unless_not test text p =
    let (f, g) = bail_if_iff (not test) text in
    let (h, k) = not_iff test p in record { iff = (λ x. h (f x), λ x. g (k x)) }

-- `if a != b { bail!(text) }`
pub unless_same :
    {A : Type 0} (d : Discrete A) (a b : A) (text : String)
    → DoneIff (bail_if (not (same d a b)) text) (a ≡ b)
unless_same d a b text = unless_not (same d a b) text (same_iff d a b)

pub unless_text : (a b text : String) → DoneIff (bail_if (not (str_eq a b)) text) (a ≡ b)
unless_text a b text = unless_not (str_eq a b) text (eq_iff a b)

some_inj : {A : Type 0} {a b : A} → some a ≡ some b → a ≡ b
some_inj h = cc

holds_iff :
    {A : Type 0} (d : Discrete A) (embedded : Option A) (loaded : A)
    → (is_some_and embedded (λ a. same d a loaded) ≡ true) ↔ (embedded ≡ some loaded)
holds_iff d none loaded = (λ h. cc, λ h. cc)
holds_iff d (some a) loaded =
    let (f, g) = same_iff d a loaded in (λ h. ap some (f h), λ h. g (some_inj h))

-- `if embedded.as_ref() != Some(&loaded) { bail!(text) }`
pub unless_holds :
    {A : Type 0} (d : Discrete A) (embedded : Option A) (loaded : A) (text : String)
    → DoneIff
        (bail_if (not (is_some_and embedded (λ a. same d a loaded))) text)
        (embedded ≡ some loaded)
unless_holds d embedded loaded text =
    unless_not (is_some_and embedded (λ a. same d a loaded)) text (holds_iff d embedded loaded)

-- `if a != b || c != d || i != j { bail!(text) }`
pub unless_all_same :
    {A B C : Type 0} (d : Discrete A) (d' : Discrete B) (d'' : Discrete C) (a b : A) (a' b' : B)
    (a'' b'' : C) (text : String)
    → DoneIff
        (bail_if (not (same d a b) || not (same d' a' b') || not (same d'' a'' b'')) text)
        (((a ≡ b) × (a' ≡ b')) × (a'' ≡ b''))
unless_all_same d d' d'' a b a' b' a'' b'' text = record {
  iff = ground (
    arith,
    bail_if_iff (not (same d a b) || not (same d' a' b') || not (same d'' a'' b'')) text,
    same_iff d a b,
    same_iff d' a' b',
    same_iff d'' a'' b'',
  );
}
