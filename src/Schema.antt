-- ===== src/Schema.antt =====
-- The declarations that accompany an upgrade, of crates/soroban-upgrades-core/src/lib.rs: storage
-- schemas with their migrations, and the history of the fields of each type.
use native.Mathlib.Decide.{ℕ_discrete}
use soroban_upgrades.Base.{ℕ, String, Bool, List, Option, String-discrete}
use soroban_upgrades.Base.BTreeMap.{BTreeMap}
use soroban_upgrades.Base.BTreeSet.{BTreeSet}
use soroban_upgrades.Json.Value.{Value, Value-discrete}

pub record Migration : Type 0 where
  pub strategy : String
  pub entrypoint : Option String
  pub notes : Option String

pub data Durability : Type 0 where
  instance_storage persistent temporary : Durability

pub record StorageEntry : Type 0 where
  pub key : String
  pub durability : Durability
  pub value_type : String
  pub migration : Option Migration

pub record StorageSchema : Type 0 where
  pub format_version : ℕ
  pub complete : Bool
  pub schema_version : ℕ
  pub contract_version : String
  pub entries : List StorageEntry

pub record HistoricalField : Type 0 where
  pub value_type : Value
  pub first_seen : String
  pub retired_in : Option String

pub record TypeHistory : Type 0 where
  pub fields : BTreeMap HistoricalField
  pub reserved_fields : BTreeSet String

pub record SchemaHistory : Type 0 where
  pub format_version : ℕ
  pub complete : Bool
  pub types : BTreeMap TypeHistory
  pub source_sha256 : String

-- `{:?}` of a durability
unfoldable pub show_durability : Durability → String
show_durability instance_storage = "Instance"
show_durability persistent = "Persistent"
show_durability temporary = "Temporary"

unfoldable pub Durability-discrete : Discrete Durability
Durability-discrete = hlevel

unfoldable pub StorageSchema-discrete : Discrete StorageSchema
unfolding String-discrete ℕ_discrete Durability-discrete
StorageSchema-discrete = hlevel (ℕ_discrete, String-discrete, Durability-discrete)

unfoldable pub SchemaHistory-discrete : Discrete SchemaHistory
unfolding String-discrete ℕ_discrete Value-discrete
SchemaHistory-discrete = hlevel (ℕ_discrete, String-discrete, Value-discrete)
