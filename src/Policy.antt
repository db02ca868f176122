-- ===== src/Policy.antt =====
-- `Policy`, `ProtocolSource` and `ValidationContext` of crates/soroban-upgrades-core/src/lib.rs: what
-- a validation is asked to enforce, and what is known of the target network.
use native.Mathlib.Decide.{ℕ_discrete}
use soroban_upgrades.Base.{ℕ, String, Bool, true, false, Option, none, String-discrete}

pub data ProtocolSource : Type 0 where
  unpinned offline_assertion stellar_cli_network_info : ProtocolSource

pub record ValidationContext : Type 0 where
  pub target_protocol_version : Option ℕ
  pub protocol_source : ProtocolSource
  pub network_name : Option String
  pub network_id : Option String
  pub network_passphrase : Option String
  pub rpc_version : Option String
  pub captive_core_version : Option String
  pub observed_at_unix_seconds : Option ℕ

-- `ValidationContext::default()`
abbrev pub default_context : ValidationContext
default_context = record {
  target_protocol_version = none;
  protocol_source = unpinned;
  network_name = none;
  network_id = none;
  network_passphrase = none;
  rpc_version = none;
  captive_core_version = none;
  observed_at_unix_seconds = none;
}

pub record Policy : Type 0 where
  pub format_version : ℕ
  pub name : String
  pub require_upgrade_function : Bool
  pub forbid_constructor : Bool
  pub require_semver_increase : Bool
  pub require_storage_schema : Bool
  pub require_schema_history : Bool
  pub deny_removed_functions : Bool
  pub deny_changed_functions : Bool
  pub deny_removed_events : Bool
  pub deny_changed_events : Bool
  pub deny_changed_user_types : Bool

-- `Policy::default()`
abbrev pub default_policy : Policy
default_policy = record {
  format_version = 1;
  name = "soroban-upgrades-default";
  require_upgrade_function = true;
  forbid_constructor = false;
  require_semver_increase = true;
  require_storage_schema = true;
  require_schema_history = true;
  deny_removed_functions = true;
  deny_changed_functions = true;
  deny_removed_events = true;
  deny_changed_events = true;
  deny_changed_user_types = true;
}

unfoldable pub ProtocolSource-discrete : Discrete ProtocolSource
ProtocolSource-discrete = hlevel

unfoldable pub ValidationContext-discrete : Discrete ValidationContext
unfolding String-discrete ℕ_discrete ProtocolSource-discrete
ValidationContext-discrete = hlevel (ℕ_discrete, String-discrete, ProtocolSource-discrete)

unfoldable pub Policy-discrete : Discrete Policy
unfolding String-discrete ℕ_discrete
Policy-discrete = hlevel (ℕ_discrete, String-discrete)
