-- ===== src/Plan/Guards.antt =====
-- The tests on what a plan is made of: its texts, its invariant command, its calls.
pub mod Calls
pub mod Texts
use soroban_upgrades.Base.{
  ℕ, String, Bool, true, false, not, ◌||◌, List, [], ◌∷◌, Option, none, some, any, ltb,
  if◌then◌else◌, same, is_none, filter_map, map, is_some_and,
}
use soroban_upgrades.Base.Order.{string_ord, list_ord}
use soroban_upgrades.Base.BTreeMap
use soroban_upgrades.Base.BTreeMap.{BTreeMap}
use soroban_upgrades.Base.BTreeSet
use soroban_upgrades.Base.BTreeSet.{BTreeSet, is_eq}
use soroban_upgrades.Base.Result.{
  Error, Result, ok, err, ◌>>=◌, ◌>>◌, fail_if, ok_or, collect, for_each, plan,
}
use soroban_upgrades.Base.Text.{
  ◌<>◌, show, join, len, is_empty_text, any_char, is_control, is_whitespace,
}
use soroban_upgrades.Json.Value as Json
use soroban_upgrades.Json.Value.{
  Value, object, field, end, string, number, pos_int, Value-discrete, pointer, as_array, as_str,
}
use soroban_upgrades.Artifact.{Artifact, InterfaceEntry, update_current_contract_wasm_import}
use soroban_upgrades.Checks.Capability.{reaches_update}
use soroban_upgrades.Checks.Interface.{then_some, struct_field}
use soroban_upgrades.Plan.{InvariantCheck, PlanInputPaths}
use soroban_upgrades.Plan.External.{PlanExternal}
use soroban_upgrades.Plan.Secret.{contains_stellar_private_key}

-- The declared inputs of a function, in the canonical form of its entry.
unfoldable pub function_inputs : InterfaceEntry → Option (List Value)
function_inputs function =
    then_some (pointer ("function_v0" ∷ "inputs" ∷ []) function.canonical) as_array

unfoldable pub input_name : Value → Option String
input_name input = then_some (Json.get "name" input) as_str

-- `expected != supplied`, negated
abbrev pub same_names : (a b : BTreeSet String) → Bool
same_names a b = is_eq (list_ord.cmp a b)

-- `{"bytes_n": {"n": 32}}`
abbrev pub bytes_n_32 : Value
bytes_n_32 = object (field "bytes_n" (object (field "n" (number (pos_int 32)) end)) end)

-- `types.get(name) == Some(&value)`
abbrev pub has_type : BTreeMap Value → (name : String) → Value → Bool
has_type types name value = is_some_and (BTreeMap.get name types) (λ t. same Value-discrete t value)

module _ (x : PlanExternal) where
  unfoldable pub validate_plan_string :
      (label value : String) (maximum_bytes : ℕ) → Result (Unit {0})
  validate_plan_string label value maximum_bytes =
      fail_if (is_empty_text value || ltb maximum_bytes (len value) || any_char is_control value) (
        plan (
          label
          <> " must be non-empty, contain no control characters, and stay within "
          <> show maximum_bytes
          <> " bytes"))
      >> fail_if (contains_stellar_private_key x value)
          (plan (label <> " must not contain a Stellar private key"))

  abbrev pub policy_path : Option String → Result (Unit {0})
  policy_path none = ok tt
  policy_path (some path) = validate_plan_string "policy path" path 4096

  unfoldable pub validate_plan_input_paths : PlanInputPaths → Result (Unit {0})
  validate_plan_input_paths paths =
      for_each (λ (label, path). validate_plan_string (label <> " path") path 4096)
        (("source WASM", paths.source_wasm)
          ∷ ("target WASM", paths.target_wasm)
          ∷ ("source schema", paths.source_schema)
          ∷ ("target schema", paths.target_schema)
          ∷ ("schema history", paths.schema_history)
          ∷ [])
      >> policy_path paths.policy

  abbrev pub validate_invariant_argument : String → Result (Unit {0})
  validate_invariant_argument argument =
      fail_if (ltb 4096 (len argument) || any_char is_control argument)
        (plan "invariant arguments must not contain control characters or exceed 4096 bytes")
      >> fail_if (contains_stellar_private_key x argument)
          (plan "invariant arguments must not contain private keys")

  unfoldable pub validate_invariant_check : InvariantCheck → Result (Unit {0})
  validate_invariant_check check =
      fail_if
        (is_empty_text check.program
          || ltb 256 (len check.program)
          || any_char (λ c. is_control c || is_whitespace c) check.program)
        (plan "invariant program must be a non-empty command name without whitespace")
      >> fail_if (contains_stellar_private_key x check.program)
          (plan "invariant program must not contain a private key")
      >> for_each validate_invariant_argument check.arguments

  unfoldable pub validate_source_identity : (source_identity : String) → Result (Unit {0})
  validate_source_identity source_identity =
      fail_if
        (is_empty_text source_identity
          || ltb 128 (len source_identity)
          || any_char (λ c. is_control c || is_whitespace c) source_identity)
        (plan
          "source identity must be a non-empty Stellar CLI alias or public account without whitespace")
      >> fail_if (contains_stellar_private_key x source_identity) (
          plan
            "source identity must not contain a private key. Use a Stellar CLI alias or public account")

  unfoldable pub validate_call_arguments :
      Artifact
      → (entrypoint : String) (arguments : BTreeMap String) (call_kind : String) → Result (Unit {0})
  unfolding function_inputs input_name
  validate_call_arguments target entrypoint arguments call_kind =
      ok_or (BTreeMap.get entrypoint target.functions) (
        plan (call_kind <> " entrypoint `" <> entrypoint <> "` is not exported by the target WASM"))
      >>= λ function.
          ok_or (function_inputs function)
            (plan ("cannot read arguments for `" <> entrypoint <> "`"))
          >>= λ inputs.
              collect
                (λ input.
                  ok_or (input_name input)
                    (plan ("cannot read an argument for `" <> entrypoint <> "`")))
                inputs
              >>= λ names.
                  (let expected = BTreeSet.collect names in
                    let supplied = BTreeSet.collect (BTreeMap.keys arguments) in
                    fail_if (not (same_names expected supplied)) (
                      plan (
                        call_kind
                        <> " entrypoint `"
                        <> entrypoint
                        <> "` requires arguments ["
                        <> join ", " expected
                        <> "], but the plan supplies ["
                        <> join ", " supplied
                        <> "]")))
                  >> for_each
                      (λ value.
                        fail_if (contains_stellar_private_key x value)
                          (plan "plan arguments must not contain private keys"))
                      (BTreeMap.values arguments)

  unfoldable pub validate_standard_upgrade_entrypoint : Artifact → Result (Unit {0})
  unfolding validate_call_arguments
  validate_standard_upgrade_entrypoint target =
      validate_call_arguments target "upgrade" (("new_wasm_hash", "") ∷ ("operator", "") ∷ [])
        "OpenZeppelin-compatible upgrade"
      >> (ok_or (then_some (BTreeMap.get "upgrade" target.functions) function_inputs)
            (plan "cannot read arguments for `upgrade`")
          >>= λ inputs.
              (let types = BTreeMap.collect (filter_map struct_field inputs) in
                fail_if
                  (not (has_type types "new_wasm_hash" bytes_n_32)
                    || not (has_type types "operator" (string "address")))
                  (plan
                    "the `upgrade` entrypoint must use `new_wasm_hash: BytesN<32>` and `operator: Address`"))
              >> fail_if (not (reaches_update target)) (
                  plan
                    "the `upgrade` entrypoint must reach Stellar `update_current_contract_wasm`"))
