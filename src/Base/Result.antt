-- ===== src/Base/Result.antt =====
-- `Result<T, Error>` of crates/soroban-upgrades-core/src/lib.rs, with its error enum. An error that
-- a third-party crate returns is carried as its message.
use soroban_upgrades.Base.{
  ℕ, String, ◌⊎◌, inl, inr, ◌↔◌, All, arith, Bool, true, false, List, [], ◌∷◌, Option, none, some,
  ◌≡◌, refl,
}

pub data Error : Type 0 where
  artifact_too_large : (size_bytes limit_bytes : ℕ) → Error
  spec : String → Error
  contract_spec_section_count : ℕ → Error
  contract_env_meta_section_count : ℕ → Error
  contract_env_version_count : ℕ → Error
  duplicate_spec_name : (kind name : String) → Error
  duplicate_spec_member : (kind owner name : String) → Error
  duplicate_metadata_key : String → Error
  wasm : String → Error
  call_graph : String → Error
  xdr : String → Error
  json : String → Error
  invalid_contract_id : String → Error
  plan : String → Error

pub data Result {ℓ} (T : Type ℓ) : Type ℓ where
  ok : T → Result T
  err : Error → Result T

-- The operator `?`: the rest of a function runs on the value.
infixl 5 ◌>>=◌
abbrev pub ◌>>=◌ {ℓ κ} : {T : Type ℓ} {U : Type κ} → Result T → (T → Result U) → Result U
ok value >>= rest = rest value
err e >>= rest = err e

-- `if test { return Err(e) }`
abbrev pub fail_if : Bool → Error → Result (Unit {0})
fail_if true e = err e
fail_if false e = ok tt

-- `test()?;`: only the success of the first counts.
infixl 5 ◌>>◌
abbrev pub ◌>>◌ {ℓ} : {U : Type ℓ} → Result (Unit {0}) → Result U → Result U
tests >> rest = tests >>= λ done. rest

-- `Option::ok_or_else`
abbrev pub ok_or {ℓ} : {A : Type ℓ} → Option A → Error → Result A
ok_or none e = err e
ok_or (some a) e = ok a

-- `iter().map(f).collect::<Result<Vec<_>, _>>()`: the first error ends the iteration.
abbrev pub collect {ℓ κ} : {A : Type ℓ} {B : Type κ} → (A → Result B) → List A → Result (List B)
collect f [] = ok []
collect f (x ∷ xs) = f x >>= λ b. collect f xs >>= λ bs. ok (b ∷ bs)

-- A `for` loop whose body may return an error.
abbrev pub for_each {ℓ} : {A : Type ℓ} → (A → Result (Unit {0})) → List A → Result (Unit {0})
for_each f [] = ok tt
for_each f (x ∷ xs) = f x >> for_each f xs

-- A `for` loop whose body updates a state or returns an error.
abbrev pub fold_result {ℓ κ} :
    {A : Type ℓ} {S : Type κ} → (S → A → Result S) → S → List A → Result S
fold_result f s [] = ok s
fold_result f s (x ∷ xs) = f s x >>= λ t. fold_result f t xs

module _ {ℓ κ} {A : Type ℓ} {B : Type κ} where
  -- Inversion of a bind that succeeds.
  pub >>=-eq-ok :
      (r : Result A) (rest : A → Result B) {answer : B}
      → (r >>= rest) ≡ ok answer
      → (value : A) × (r ≡ ok value) × (rest value ≡ ok answer)
  >>=-eq-ok (err e) rest h = cc
  >>=-eq-ok (ok value) rest h = (value, refl, h)

pub fail_if-eq-ok : (b : Bool) (e : Error) {u : Unit {0}} → fail_if b e ≡ ok u → b ≡ false
fail_if-eq-ok true e h = cc
fail_if-eq-ok false e h = refl

-- A sequence succeeds where both of its parts do.
pub >>-eq-ok {ℓ} :
    {B : Type ℓ} (m : Result (Unit {0})) (k : Result B) {b : B}
    → ((m >> k) ≡ ok b) ↔ ((m ≡ ok tt) × (k ≡ ok b))
>>-eq-ok (ok u) k = (λ h. (refl, h), λ h. h.1)
>>-eq-ok (err e) k = (λ h. cc, λ h. cc)

pub fail_if-eq-ok_iff : (b : Bool) (e : Error) → (fail_if b e ≡ ok tt) ↔ (b ≡ false)
fail_if-eq-ok_iff b e = ground arith

pub for_each-eq-ok :
    {A : Type 0} (f : A → Result (Unit {0})) (xs : List A)
    → (for_each f xs ≡ ok tt) ↔ All (λ a. f a ≡ ok tt) xs
for_each-eq-ok f [] = (λ _. tt, λ _. refl)
for_each-eq-ok f (x ∷ xs) =
    ground (arith, >>-eq-ok (f x) (for_each f xs) {b = tt}, for_each-eq-ok f xs)

pub Result-cases {ℓ} :
    {A : Type ℓ} (r : Result A) → ((a : A) × (r ≡ ok a)) ⊎ ((e : Error) × (r ≡ err e))
Result-cases (ok a) = inl (a, refl)
Result-cases (err e) = inr (e, refl)
