-- ===== src/Artifact.antt =====
-- `Artifact` and the parts of it, of crates/soroban-upgrades-core/src/lib.rs: what is read from one
-- compiled contract. The modules below read it from the WASM file.
pub mod Spec
pub mod Wasm
pub mod Calls
pub mod Load
use native.Mathlib.Decide.{ℕ_discrete}
use soroban_upgrades.Base.{ℕ, String, ◌≡◌, Bool, false, Option, List, [], String-discrete, arith}
use soroban_upgrades.Base.Order.{Ord, ord_by, nat_ord, string_ord, pair_ord, option_ord}
use soroban_upgrades.Base.BTreeMap
use soroban_upgrades.Base.BTreeMap.{BTreeMap}
use soroban_upgrades.Base.BTreeSet
use soroban_upgrades.Base.BTreeSet.{BTreeSet}
use soroban_upgrades.Base.Text.{◌++◌}
use soroban_upgrades.Json.Value.{Value, Value-discrete}

abbrev pub cap_0086_sparse_write_import : String
cap_0086_sparse_write_import = "m.b"

abbrev pub cap_0086_sparse_read_import : String
cap_0086_sparse_read_import = "m.c"

abbrev pub update_current_contract_wasm_import : String
update_current_contract_wasm_import = "l.6"

pub record InterfaceEntry : Type 0 where
  pub kind : String
  pub name : String
  pub canonical : Value

pub data BoundaryPosition : Type 0 where
  input output : BoundaryPosition

pub record PublicTypeBoundary : Type 0 where
  pub function : String
  pub position : BoundaryPosition
  pub index : ℕ
  pub label : Option String
  pub root_type : String

pub record TypeReference : Type 0 where
  pub owner_type : String
  pub member : String
  pub target_type : String

pub record ExportCallEvidence : Type 0 where
  pub host_imports : BTreeSet String
  pub dynamic_dispatch_reachable : Bool

pub record FunctionImport : Type 0 where
  pub function_index : ℕ
  pub module_name : String
  pub name : String

unfoldable pub canonical_name : FunctionImport → String
canonical_name i = i.module_name ++ "." ++ i.name

pub record Artifact : Type 0 where
  pub format_version : ℕ
  pub sha256 : String
  pub size_bytes : ℕ
  pub env_protocol_version : ℕ
  pub env_pre_release : ℕ
  pub metadata : BTreeMap String
  pub host_imports : BTreeSet String
  pub functions : BTreeMap InterfaceEntry
  pub events : BTreeMap InterfaceEntry
  pub user_types : BTreeMap InterfaceEntry
  pub public_type_boundaries : List PublicTypeBoundary
  pub type_references : List TypeReference
  pub export_call_evidence : BTreeMap ExportCallEvidence

unfoldable pub version : Artifact → Option String
version a = BTreeMap.get "binver" a.metadata

unfoldable pub has_function : Artifact → String → Bool
has_function a name = BTreeMap.contains_key name a.functions

unfoldable pub uses_cap_0086_sparse_read : Artifact → Bool
uses_cap_0086_sparse_read a = BTreeSet.contains cap_0086_sparse_read_import a.host_imports

unfoldable pub uses_cap_0086_sparse_write : Artifact → Bool
uses_cap_0086_sparse_write a = BTreeSet.contains cap_0086_sparse_write_import a.host_imports

-- The derived equality.
unfoldable pub Artifact-discrete : Discrete Artifact
unfolding String-discrete Value-discrete ℕ_discrete
Artifact-discrete = hlevel (ℕ_discrete, String-discrete, Value-discrete)

-- The derived orders: by the fields as they are declared.
unfoldable pub position_rank : BoundaryPosition → ℕ
position_rank input = 0
position_rank output = 1

pub position_rank_inj : (a b : BoundaryPosition) → position_rank a ≡ position_rank b → a ≡ b
unfolding position_rank
position_rank_inj a b h = ground arith

instance unfoldable pub position_ord : Ord BoundaryPosition
position_ord = ord_by position_rank position_rank_inj

abbrev pub boundary_key :
    PublicTypeBoundary → String × (BoundaryPosition × (ℕ × (Option String × String)))
boundary_key b = (b.function, (b.position, (b.index, (b.label, b.root_type))))

pub boundary_key_inj : (a b : PublicTypeBoundary) → boundary_key a ≡ boundary_key b → a ≡ b
boundary_key_inj a b p = λ i. record {
  function = (p i).0;
  position = (p i).1.0;
  index = (p i).1.1.0;
  label = (p i).1.1.1.0;
  root_type = (p i).1.1.1.1;
}

instance unfoldable pub boundary_ord : Ord PublicTypeBoundary
boundary_ord = ord_by boundary_key boundary_key_inj

abbrev pub reference_key : TypeReference → String × (String × String)
reference_key r = (r.owner_type, (r.member, r.target_type))

pub reference_key_inj : (a b : TypeReference) → reference_key a ≡ reference_key b → a ≡ b
reference_key_inj a b p =
    λ i. record { owner_type = (p i).0; member = (p i).1.0; target_type = (p i).1.1 }

instance unfoldable pub reference_ord : Ord TypeReference
reference_ord = ord_by reference_key reference_key_inj
