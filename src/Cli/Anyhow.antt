-- ===== src/Cli/Anyhow.antt =====
-- `anyhow::Result`, in which the command line reports failures: a message, an error of the core
-- crate, or a context put before another failure.
use soroban_upgrades.Base.{◌≡◌, refl, ap, ◌↔◌, Bool, true, false, Option, none, some, String}
use soroban_upgrades.Base.Result.{Error, Result, ok, err}

pub data Failure : Type 0 where
  message : String → Failure
  core : Error → Failure
  context : String → Failure → Failure

pub data Outcome {ℓ} (T : Type ℓ) : Type ℓ where
  done : T → Outcome T
  failed : Failure → Outcome T

-- The operator `?`
infixl 5 ◌>>=◌
abbrev pub ◌>>=◌ {ℓ κ} : {T : Type ℓ} {U : Type κ} → Outcome T → (T → Outcome U) → Outcome U
done value >>= rest = rest value
failed e >>= rest = failed e

infixl 5 ◌>>◌
abbrev pub ◌>>◌ {ℓ} : {U : Type ℓ} → Outcome (Unit {0}) → Outcome U → Outcome U
tests >> rest = tests >>= λ _. rest

-- `if test { bail!(text) }`
abbrev pub bail_if : Bool → String → Outcome (Unit {0})
bail_if true text = failed (message text)
bail_if false text = done tt

-- `with_context(|| text)`
abbrev pub with_context {ℓ} : {T : Type ℓ} → Outcome T → String → Outcome T
with_context (done value) text = done value
with_context (failed e) text = failed (context text e)

-- The conversion that `?` applies to an error of the core crate.
abbrev pub from_core {ℓ} : {T : Type ℓ} → Result T → Outcome T
from_core (ok value) = done value
from_core (err e) = failed (core e)

-- `Option::context` and `ok_or_else(|| anyhow!(text))`
abbrev pub some_or {ℓ} : {T : Type ℓ} → Option T → String → Outcome T
some_or (some value) text = done value
some_or none text = failed (message text)

pub done_inj {ℓ} : {A : Type ℓ} {a b : A} → done a ≡ done b → a ≡ b
done_inj h = cc

module _ {A B : Type 0} where
  pub >>=_iff :
      (m : Outcome A) (f : A → Outcome B) (b : B)
      → ((m >>= f) ≡ done b) ↔ ((a : A) × (m ≡ done a) × (f a ≡ done b))
  >>=_iff (done a) f b = (λ h. (a, refl, h), λ (c, e, h). cc)
  >>=_iff (failed e) f b = (λ h. cc, λ (c, d, h). cc)

pub >>_iff :
    {B : Type 0} (m : Outcome (Unit {0})) (k : Outcome B) (b : B)
    → ((m >> k) ≡ done b) ↔ ((m ≡ done tt) × (k ≡ done b))
>>_iff (done tt) k b = (λ h. (refl, h), λ h. h.1)
>>_iff (failed e) k b = (λ h. cc, λ h. cc)

pub bail_if_iff : (test : Bool) (text : String) → (bail_if test text ≡ done tt) ↔ (test ≡ false)
bail_if_iff true text = (λ h. cc, λ h. cc)
bail_if_iff false text = (λ _. refl, λ _. refl)

module _ {A : Type 0} where
  pub with_context_iff :
      (m : Outcome A) (text : String) (a : A) → (with_context m text ≡ done a) ↔ (m ≡ done a)
  with_context_iff (done b) text a = (λ h. h, λ h. h)
  with_context_iff (failed e) text a = (λ h. cc, λ h. cc)

  pub from_core_iff : (r : Result A) (a : A) → (from_core r ≡ done a) ↔ (r ≡ ok a)
  from_core_iff (ok b) a = (λ h. cc, λ h. cc)
  from_core_iff (err e) a = (λ h. cc, λ h. cc)

  pub some_or_iff :
      (o : Option A) (text : String) (a : A) → (some_or o text ≡ done a) ↔ (o ≡ some a)
  some_or_iff (some b) text a = (λ h. cc, λ h. cc)
  some_or_iff none text a = (λ h. cc, λ h. cc)

-- Two tests before a value.
pub two_tests_iff :
    {A : Type 0} (test other : Bool) (text other_text : String) (value a : A)
    → ((bail_if test text >> bail_if other other_text >> done value) ≡ done a)
      ↔ (((test ≡ false) × (other ≡ false)) × (value ≡ a))
two_tests_iff true other text other_text value a = (λ h. cc, λ h. cc)
two_tests_iff false true text other_text value a = (λ h. cc, λ h. cc)
two_tests_iff false false text other_text value a =
    (λ h. ((refl, refl), done_inj h), λ h. ap done h.1)
