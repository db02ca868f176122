-- ===== src/Plan/Guards/Texts.antt =====
-- Which paths, names and commands the guards let through.
use soroban_upgrades.Base.{
  ℕ, ◌≤◌, String, Bool, false, ◌||◌, ◌≡◌, refl, sym, subst, ◌↔◌, Option, none, some, List, [], ◌∷◌,
  In, arith, ltb, inl, inr,
}
use soroban_upgrades.Base.Result.{ok}
use soroban_upgrades.Base.Guards.{OkIff, ◌then◌, unless, meaning, each}
use soroban_upgrades.Base.Text.{◌<>◌, len, is_empty_text, any_char, is_control, is_whitespace}
use soroban_upgrades.Plan.{InvariantCheck, PlanInputPaths}
use soroban_upgrades.Plan.External.{PlanExternal}
use soroban_upgrades.Plan.Secret.{contains_stellar_private_key}
use soroban_upgrades.Plan.Guards.{
  validate_plan_string, validate_plan_input_paths, validate_invariant_check,
  validate_source_identity, policy_path,
}

bounded_iff :
    (empty control : Bool) (length maximum : ℕ)
    → ((empty || ltb maximum length || control) ≡ false)
      ↔ ((empty ≡ false) × ((length ≤ maximum) × (control ≡ false)))
bounded_iff empty control length maximum = ground arith

-- A text that is there, within a length, without control characters or a private key in it.
abbrev pub IsPlanText : PlanExternal → (maximum_bytes : ℕ) → String → Type 0
IsPlanText x maximum_bytes value =
    ((is_empty_text value ≡ false)
      × ((len value ≤ maximum_bytes) × (any_char is_control value ≡ false)))
    × (contains_stellar_private_key x value ≡ false)

validate_plan_string-IsPlanText :
    (x : PlanExternal) (label value : String) (maximum_bytes : ℕ)
    → OkIff (validate_plan_string x label value maximum_bytes) (IsPlanText x maximum_bytes value)
unfolding validate_plan_string
validate_plan_string-IsPlanText x label value maximum_bytes =
    meaning
      (bounded_iff (is_empty_text value) (any_char is_control value) (len value) maximum_bytes)
      (unless (is_empty_text value || ltb maximum_bytes (len value) || any_char is_control value) _)
    then unless (contains_stellar_private_key x value) _

-- The path of the policy is optional.
abbrev pub IsPolicyPath : PlanExternal → Option String → Type 0
IsPolicyPath x none = Unit
IsPolicyPath x (some path) = IsPlanText x 4096 path

policy_path-IsPolicyPath :
    (x : PlanExternal) (path : Option String) → OkIff (policy_path x path) (IsPolicyPath x path)
policy_path-IsPolicyPath x none = record { iff = (λ _. tt, λ _. refl) }
policy_path-IsPolicyPath x (some path) = validate_plan_string-IsPlanText x "policy path" path 4096

abbrev required_paths : PlanInputPaths → List (String × String)
required_paths paths =
    ("source WASM", paths.source_wasm)
    ∷ ("target WASM", paths.target_wasm)
    ∷ ("source schema", paths.source_schema)
    ∷ ("target schema", paths.target_schema)
    ∷ ("schema history", paths.schema_history)
    ∷ []

five :
    (P : String × String → Type 0) (p q r s t : String × String)
    → P p
    → P q
    → P r
    → P s
    → P t
    → (z : String × String) → In z (p ∷ q ∷ r ∷ s ∷ t ∷ [])
    → P z
five P p q r s t a b c d e z (inl h) = subst P (sym h) a
five P p q r s t a b c d e z (inr (inl h)) = subst P (sym h) b
five P p q r s t a b c d e z (inr (inr (inl h))) = subst P (sym h) c
five P p q r s t a b c d e z (inr (inr (inr (inl h)))) = subst P (sym h) d
five P p q r s t a b c d e z (inr (inr (inr (inr (inl h))))) = subst P (sym h) e
five P p q r s t a b c d e z (inr (inr (inr (inr (inr h))))) = absurd h

-- The paths pass exactly where each of the five required ones, and the policy's where it is given,
-- is there, at most 4096 bytes long, and free of control characters and of private keys.
pub validate_plan_input_paths_iff :
    (x : PlanExternal) (paths : PlanInputPaths)
    → (validate_plan_input_paths x paths ≡ ok tt) ↔ (
        IsPlanText x 4096 paths.source_wasm
        × IsPlanText x 4096 paths.target_wasm
        × IsPlanText x 4096 paths.source_schema
        × IsPlanText x 4096 paths.target_schema
        × IsPlanText x 4096 paths.schema_history
        × IsPolicyPath x paths.policy)
unfolding validate_plan_input_paths
validate_plan_input_paths_iff x paths =
    let tests =
      each (λ (label, path). validate_plan_string-IsPlanText x (label <> " path") path 4096)
        (required_paths paths)
      then policy_path-IsPolicyPath x paths.policy in
    (
      λ h.
          let (p, q) = tests.iff.0 h in
          (
            p _ (inl refl),
            p _ (inr (inl refl)),
            p _ (inr (inr (inl refl))),
            p _ (inr (inr (inr (inl refl)))),
            p _ (inr (inr (inr (inr (inl refl))))),
            q,
          ),
      λ (a, b, c, d, e, q). tests.iff.1 (five (λ z. IsPlanText x 4096 z.1) _ _ _ _ _ a b c d e, q),
    )

-- A name without whitespace.
abbrev pub IsName : PlanExternal → (maximum_bytes : ℕ) → String → Type 0
IsName x maximum_bytes value =
    ((is_empty_text value ≡ false)
      × ((len value ≤ maximum_bytes)
          × (any_char (λ c. is_control c || is_whitespace c) value ≡ false)))
    × (contains_stellar_private_key x value ≡ false)

-- A source identity passes exactly where it is there, at most 128 bytes long, and free of control
-- characters, whitespace and private keys.
pub validate_source_identity_iff :
    (x : PlanExternal) (source_identity : String)
    → (validate_source_identity x source_identity ≡ ok tt) ↔ IsName x 128 source_identity
unfolding validate_source_identity
validate_source_identity_iff x value =
    let tests =
      meaning
        (bounded_iff (is_empty_text value) (any_char (λ c. is_control c || is_whitespace c) value)
          (len value) 128)
        (unless
          (is_empty_text value
            || ltb 128 (len value)
            || any_char (λ c. is_control c || is_whitespace c) value)
          _)
      then unless (contains_stellar_private_key x value) _ in
    tests.iff

-- An argument of the invariant command may be empty and have spaces.
abbrev pub IsArgument : PlanExternal → String → Type 0
IsArgument x argument =
    ((len argument ≤ 4096) × (any_char is_control argument ≡ false))
    × (contains_stellar_private_key x argument ≡ false)

argument_iff :
    (control : Bool) (length : ℕ)
    → ((ltb 4096 length || control) ≡ false) ↔ ((length ≤ 4096) × (control ≡ false))
argument_iff control length = ground arith

-- An invariant command passes exactly where its program is a name of at most 256 bytes and each of
-- its arguments is within 4096 bytes and free of control characters and private keys.
pub validate_invariant_check_iff :
    (x : PlanExternal) (check : InvariantCheck)
    → (validate_invariant_check x check ≡ ok tt) ↔ (
        IsName x 256 check.program
        × ((argument : String) → In argument check.arguments → IsArgument x argument))
unfolding validate_invariant_check
validate_invariant_check_iff x check =
    let tests =
      meaning
        (bounded_iff (is_empty_text check.program)
          (any_char (λ c. is_control c || is_whitespace c) check.program) (len check.program) 256)
        (unless
          (is_empty_text check.program
            || ltb 256 (len check.program)
            || any_char (λ c. is_control c || is_whitespace c) check.program)
          _)
      then unless (contains_stellar_private_key x check.program) _
      then each
          (λ argument.
            meaning (argument_iff (any_char is_control argument) (len argument))
              (unless (ltb 4096 (len argument) || any_char is_control argument) _)
            then unless (contains_stellar_private_key x argument) _)
          check.arguments in
    tests.iff
