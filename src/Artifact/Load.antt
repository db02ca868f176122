-- ===== src/Artifact/Load.antt =====
-- `Artifact::from_wasm` and the helpers that it calls to build the interface maps.
pub mod Unique
use soroban_upgrades.Base.{
  ℕ, ◌*◌, ◌<◌, String, Bool, List, [], ◌∷◌, map, length, Option, none, some, ltb, enumerate_from,
  flat_map,
}
use soroban_upgrades.Base.Result.{
  Error, artifact_too_large, duplicate_spec_name, duplicate_spec_member, Result, ok, err, ◌>>=◌,
  ◌>>◌, fail_if, fold_result, for_each,
}
use soroban_upgrades.Base.Order.{string_ord}
use soroban_upgrades.Base.BTreeMap
use soroban_upgrades.Base.BTreeMap.{BTreeMap}
use soroban_upgrades.Base.BTreeSet
use soroban_upgrades.Base.BTreeSet.{BTreeSet}
use soroban_upgrades.Base.Text.{◌++◌, show}
use soroban_upgrades.Json.Value.{Value}
use soroban_upgrades.Json.Documentation.{strip_documentation}
use soroban_upgrades.Artifact.{
  InterfaceEntry, BoundaryPosition, input, output, PublicTypeBoundary, TypeReference, Artifact,
  boundary_ord, reference_ord,
}
use soroban_upgrades.Artifact.Spec.{
  ScSpecTypeDef, Named, UnionCase, void_v0, tuple_v0, case_name, ScSpecEntry, function_v0,
  udt_struct_v0, udt_union_v0, udt_enum_v0, udt_error_enum_v0, event_v0, SpecItem,
  collect_udt_names,
}
use soroban_upgrades.Artifact.Wasm.{
  Bytes, Crates, require_single_contract_spec_section, read_contract_metadata,
  read_contract_env_metadata, read_host_imports,
}
use soroban_upgrades.Artifact.Calls.{inspect_export_call_evidence}

-- 16 MiB
abbrev pub max_artifact_size_bytes : ℕ
max_artifact_size_bytes = 16 * 1024 * 1024

unfoldable pub canonicalize_spec_entry : SpecItem → Result Value
canonicalize_spec_entry item = do value ← item.to_value; ok (strip_documentation value)

module _ (kind owner : String) where
  unique_from : BTreeSet String → List String → Result (Unit {0})
  unique_from unique [] = ok tt
  unique_from unique (name ∷ names) =
      fail_if (BTreeSet.contains name unique) (duplicate_spec_member kind owner name)
      >> unique_from (BTreeSet.insert name unique) names

  unfoldable pub ensure_unique_spec_members : List String → Result (Unit {0})
  unfolding unique_from
  ensure_unique_spec_members names = unique_from [] names

-- A map's `insert` that must not replace an entry.
insert_new :
    (kind_in_error : String)
    → BTreeMap InterfaceEntry
    → (kind name : String) → Value
    → Result (BTreeMap InterfaceEntry)
insert_new kind_in_error destination kind name canonical = do
  fail_if (BTreeMap.contains_key name destination) (duplicate_spec_name kind_in_error name)
  ok (BTreeMap.insert name (record { kind = kind; name = name; canonical = canonical }) destination)

unfoldable pub insert_user_type :
    BTreeMap InterfaceEntry → (kind name : String) → Value → Result (BTreeMap InterfaceEntry)
unfolding insert_new
insert_user_type destination kind name canonical =
    insert_new "user-defined type" destination kind name canonical

-- The collections that the loop over the specification fills.
pub record Interface : Type 0 where
  pub functions : BTreeMap InterfaceEntry
  pub events : BTreeMap InterfaceEntry
  pub user_types : BTreeMap InterfaceEntry
  pub public_type_boundaries : BTreeSet PublicTypeBoundary
  pub type_references : BTreeSet TypeReference

abbrev names_in : ScSpecTypeDef → BTreeSet String
names_in t = collect_udt_names t []

input_boundaries : String → ℕ × Named → List PublicTypeBoundary
input_boundaries function (index, i) =
    map
      (λ root_type. record {
        function = function;
        position = input;
        index = index;
        label = some i.name;
        root_type = root_type;
      })
      (names_in i.type_)

output_boundaries : String → ℕ × ScSpecTypeDef → List PublicTypeBoundary
output_boundaries function (index, t) =
    map
      (λ root_type. record {
        function = function;
        position = output;
        index = index;
        label = none;
        root_type = root_type;
      })
      (names_in t)

references : (owner_type member : String) → ScSpecTypeDef → List TypeReference
references owner_type member t =
    map
      (λ target_type. record {
        owner_type = owner_type;
        member = member;
        target_type = target_type;
      })
      (names_in t)

case_references : String → UnionCase → List TypeReference
unfolding references
case_references owner_type (void_v0 name) = []
case_references owner_type (tuple_v0 name types) =
    flat_map (λ (index, t). references owner_type (name ++ "[" ++ show index ++ "]") t)
      (enumerate_from 0 types)

-- The body of the loop over `spec`, after `canonicalize_spec_entry`.
add_entry : Interface → Value → ScSpecEntry → Result Interface
unfolding input_boundaries output_boundaries references case_references insert_new
add_entry s canonical (function_v0 name inputs outputs) = do
  ensure_unique_spec_members "function" name (map (λ i. i.name) inputs)
  let boundaries =
      BTreeSet.extend
        (BTreeSet.extend s.public_type_boundaries
          (flat_map (input_boundaries name) (enumerate_from 0 inputs)))
        (flat_map (output_boundaries name) (enumerate_from 0 outputs))
  functions ← insert_new "function" s.functions "function" name canonical
  ok (record s { functions = functions; public_type_boundaries = boundaries })
add_entry s canonical (udt_struct_v0 name fields) = do
  ensure_unique_spec_members "struct" name (map (λ f. f.name) fields)
  let found =
      BTreeSet.extend s.type_references
        (flat_map (λ (f : Named). references name f.name f.type_) fields)
  user_types ← insert_user_type s.user_types "struct" name canonical
  ok (record s { user_types = user_types; type_references = found })
add_entry s canonical (udt_union_v0 name cases) = do
  ensure_unique_spec_members "union" name (map case_name cases)
  let found = BTreeSet.extend s.type_references (flat_map (case_references name) cases)
  user_types ← insert_user_type s.user_types "union" name canonical
  ok (record s { user_types = user_types; type_references = found })
add_entry s canonical (udt_enum_v0 name cases) = do
  ensure_unique_spec_members "enum" name cases
  user_types ← insert_user_type s.user_types "enum" name canonical
  ok (record s { user_types = user_types })
add_entry s canonical (udt_error_enum_v0 name cases) = do
  ensure_unique_spec_members "error enum" name cases
  user_types ← insert_user_type s.user_types "error_enum" name canonical
  ok (record s { user_types = user_types })
add_entry s canonical (event_v0 name params) = do
  ensure_unique_spec_members "event" name params
  events ← insert_new "event" s.events "event" name canonical
  ok (record s { events = events })

add_item : Interface → SpecItem → Result Interface
unfolding add_entry
add_item s item = do canonical ← canonicalize_spec_entry item; add_entry s canonical item.entry

abbrev pub no_interface : Interface
no_interface = record {
  functions = [];
  events = [];
  user_types = [];
  public_type_boundaries = [];
  type_references = [];
}

unfoldable pub read_interface : List SpecItem → Result Interface
unfolding add_item
read_interface spec = fold_result add_item no_interface spec

unfoldable pub from_wasm : Crates → Bytes → Result Artifact
unfolding read_interface
from_wasm c bytes = do
  fail_if (ltb max_artifact_size_bytes (length bytes))
      (artifact_too_large (length bytes) max_artifact_size_bytes)
  c.validate_all bytes
  let sha256 = c.sha256_hex bytes
  require_single_contract_spec_section c bytes
  env ← read_contract_env_metadata c bytes
  spec ← c.spec_from_wasm bytes
  metadata ← read_contract_metadata c bytes
  host_imports ← read_host_imports c bytes
  export_call_evidence ← inspect_export_call_evidence c bytes
  found ← read_interface spec
  ok (record {
    format_version = 1;
    sha256 = sha256;
    size_bytes = length bytes;
    env_protocol_version = env.0;
    env_pre_release = env.1;
    metadata = metadata;
    host_imports = host_imports;
    functions = found.functions;
    events = found.events;
    user_types = found.user_types;
    public_type_boundaries = found.public_type_boundaries;
    type_references = found.type_references;
    export_call_evidence = export_call_evidence;
  })
