-- ===== src/Artifact/Wasm.antt =====
-- What the program reads of a WASM file through wasmparser, soroban_spec and stellar_xdr, and its
-- readers of the custom sections and the imports.
use soroban_upgrades.Base.{
  ℕ, ◌+◌, ◌^◌, ◌-◌, String, Bool, List, [], ◌∷◌, ◌++◌, map, length, str_eq, not, ◌==◌, ltb,
  if◌then◌else◌,
}
use soroban_upgrades.Base.Result.{
  contract_spec_section_count, contract_env_meta_section_count, contract_env_version_count,
  duplicate_metadata_key, call_graph, Result, ok, err, ◌>>=◌, ◌>>◌, fail_if, fold_result,
}
use soroban_upgrades.Base.Order.{string_ord}
use soroban_upgrades.Base.BTreeMap
use soroban_upgrades.Base.BTreeMap.{BTreeMap}
use soroban_upgrades.Base.BTreeSet
use soroban_upgrades.Base.BTreeSet.{BTreeSet}
use soroban_upgrades.Artifact.{FunctionImport, canonical_name}
use soroban_upgrades.Artifact.Spec.{SpecItem}

abbrev pub Bytes : Type 0
Bytes = List ℕ

pub record Import : Type 0 where
  pub module_name : String
  pub name : String
  pub is_func : Bool

pub record Export : Type 0 where
  pub name : String
  pub is_func : Bool
  pub index : ℕ

pub data Operator : Type 0 where
  call return_call : (function_index : ℕ) → Operator
  call_indirect return_call_indirect call_ref return_call_ref other : Operator

-- Where the parser can fail in the middle of a section, the element carries the failure.
pub data Payload : Type 0 where
  custom_section : (name : String) (contents : Bytes) → Payload
  import_section : List (Result Import) → Payload
  export_section : List (Result Export) → Payload
  code_section_entry : Result (List (Result Operator)) → Payload
  other_payload : Payload

-- The crates: the validator, SHA-256 in hexadecimal, the payload iterator, the specification
-- reader, and the XDR readers of the two metadata sections at the depth limit of 500.
pub record Crates : Type 0 where
  pub validate_all : Bytes → Result (Unit {0})
  pub sha256_hex : Bytes → String
  pub parse_all : Bytes → List (Result Payload)
  pub spec_from_wasm : Bytes → Result (List SpecItem)
  pub read_meta_entries : Bytes → Result (List (String × String))
  pub read_env_meta_entries : Bytes → Result (List (ℕ × ℕ))

-- The loop over the payloads, for a body that looks at custom sections.
custom_fold : {S : Type 0} → (S → String → Bytes → S) → S → List (Result Payload) → Result S
custom_fold f s [] = ok s
custom_fold f s (err e ∷ ps) = err e
custom_fold f s (ok (custom_section name contents) ∷ ps) = custom_fold f (f s name contents) ps
custom_fold f s (ok _ ∷ ps) = custom_fold f s ps

-- `entries.len() != 1`, and `&entries[0]`
only_entry : List (ℕ × ℕ) → Result (ℕ × ℕ)
only_entry (entry ∷ []) = ok entry
only_entry entries = err (contract_env_version_count (length entries))

insert_metadata : BTreeMap String → String × String → Result (BTreeMap String)
insert_metadata metadata (key, val) = do
  fail_if (BTreeMap.contains_key key metadata) (duplicate_metadata_key key)
  ok (BTreeMap.insert key val metadata)

module _ (c : Crates) (bytes : Bytes) where
  unfoldable pub require_single_contract_spec_section : Result (Unit {0})
  unfolding custom_fold
  require_single_contract_spec_section = do
    count ←
        custom_fold {S = ℕ} (λ n name contents. n + (if str_eq name "contractspecv0" then 1 else 0))
          0 (c.parse_all bytes)
    if count == 1 then ok tt else err (contract_spec_section_count count)

  unfoldable pub read_contract_metadata : Result (BTreeMap String)
  unfolding custom_fold insert_metadata
  read_contract_metadata = do
    raw ←
        custom_fold {S = Bytes}
          (λ raw name contents. if str_eq name "contractmetav0" then raw ++ contents else raw) []
          (c.parse_all bytes)
    entries ← c.read_meta_entries raw
    fold_result insert_metadata [] entries

  unfoldable pub read_contract_env_metadata : Result (ℕ × ℕ)
  unfolding custom_fold only_entry
  read_contract_env_metadata = do
    sections ←
        custom_fold {S = ℕ × Bytes}
          (λ s name contents.
            if str_eq name "contractenvmetav0" then (s.0 + 1, s.1 ++ contents) else s)
          (0, []) (c.parse_all bytes)
    fail_if (not (sections.0 == 1)) (contract_env_meta_section_count sections.0)
    entries ← c.read_env_meta_entries sections.1
    only_entry entries

abbrev pub u32_max : ℕ
u32_max = 2 ^ 32 - 1

push_import : List FunctionImport → Result Import → Result (List FunctionImport)
push_import imports (err e) = err e
push_import imports (ok i) =
    if i.is_func
    then (do
      fail_if (ltb u32_max (length imports)) (call_graph "too many function imports to inspect")
      ok (
          imports
          ++ record { function_index = length imports; module_name = i.module_name; name = i.name }
            ∷ []))
    else ok imports

import_payload : List FunctionImport → Result Payload → Result (List FunctionImport)
unfolding push_import
import_payload imports (err e) = err e
import_payload imports (ok (import_section section)) = fold_result push_import imports section
import_payload imports (ok _) = ok imports

unfoldable pub inspect_function_imports : Crates → Bytes → Result (List FunctionImport)
unfolding import_payload
inspect_function_imports c bytes = fold_result import_payload [] (c.parse_all bytes)

unfoldable pub read_host_imports : Crates → Bytes → Result (BTreeSet String)
unfolding inspect_function_imports
read_host_imports c bytes = do
  imports ← inspect_function_imports c bytes
  ok (BTreeSet.collect (map canonical_name imports))
