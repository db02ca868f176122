-- ===== src/Samples/Release.antt =====
-- The release: version 1.0.0 of a contract, and version 1.1.0 with one more field, a changed storage
-- entry and a migration for it.
use soroban_upgrades.Base.{
  ℕ, ◌+◌, String, true, false, ◌==◌, Option, none, some, List, [], ◌∷◌, all, if◌then◌else◌, str_eq,
  compare,
}
use soroban_upgrades.Base.Result.{Result, ok, err, json}
use soroban_upgrades.Base.Text.{◌<>◌, show, as_bytes}
use soroban_upgrades.Json.Value.{
  Value, object, array, string, number, pos_int, Items, nil, cons, Fields, end, field,
}
use soroban_upgrades.Artifact.{InterfaceEntry, Artifact, ExportCallEvidence}
use soroban_upgrades.Policy.{ValidationContext, stellar_cli_network_info}
use soroban_upgrades.Schema.{StorageSchema, SchemaHistory, persistent}
use soroban_upgrades.Checks.External.{External}
use soroban_upgrades.Plan.{UpgradePlan, PlanInputPaths, PlanOperations}
use soroban_upgrades.Plan.External.{PlanExternal}

abbrev version_of : String → Option ℕ
version_of text =
    if str_eq text "1.0.0" then some 0 else if str_eq text "1.1.0" then some 1 else none

abbrev sum_of : List ℕ → ℕ
sum_of [] = 0
sum_of (b ∷ bytes) = b + sum_of bytes

-- Two versions, and a checksum for the hash.
abbrev pub external : External
external = record {
  Version = ℕ;
  parse_version = version_of;
  compare_versions = compare;
  show_version = show;
  value_to_text = λ v. none;
  policy_to_vec = λ p. some (as_bytes p.name);
  schema_to_vec = λ s. some (as_bytes s.contract_version);
  sha256_hex = λ bytes. show (sum_of bytes);
  tool_version = "0.2.0";
}

abbrev fields_of_plan : UpgradePlan → Fields
fields_of_plan p = field "network" (string p.network) (
    field "planSha256" (string p.plan_sha256)
      (field "targetWasmSha256" (string p.target_wasm_sha256) end))

abbrev text_of_field : Fields → String
text_of_field end = ""
text_of_field (field k (string v) fs) = k <> "=" <> v <> ";" <> text_of_field fs
text_of_field (field k v fs) = k <> ";" <> text_of_field fs

abbrev bytes_of : Value → Result (List ℕ)
bytes_of (object fs) = ok (as_bytes (text_of_field fs))
bytes_of v = err (json "not an object")

-- One contract, keys made of the letter `S`, and three fields of a plan for its serialised form.
abbrev pub plan_external : PlanExternal
plan_external = record {
  checks = external;
  is_contract_id = λ text. str_eq text "CCONTRACT";
  is_private_key = all (λ b. b == b'S');
  plan_to_text = λ p. ok (text_of_field (fields_of_plan p));
  plan_to_value = λ p. ok (object (fields_of_plan p));
  value_to_vec = bytes_of;
}

abbrev named : String → Value → Value
named name type_ = object (field "name" (string name) (field "type_" type_ end))

abbrev function_entry : (name : String) → Items → InterfaceEntry
function_entry name inputs = record {
  kind = "function";
  name = name;
  canonical = object (field "function_v0" (object (field "inputs" (array inputs) end)) end);
}

abbrev pub upgrade_inputs : Items
upgrade_inputs =
    cons
      (named "new_wasm_hash"
        (object (field "bytes_n" (object (field "n" (number (pos_int 32)) end)) end)))
      (cons (named "operator" (string "address")) nil)

abbrev pub upgrade_entry : InterfaceEntry
upgrade_entry = function_entry "upgrade" upgrade_inputs

abbrev pub migrate_entry : InterfaceEntry
migrate_entry = function_entry "migrate" (cons (named "operator" (string "address")) nil)

abbrev pub account_entry : InterfaceEntry
account_entry = record {
  kind = "struct";
  name = "Account";
  canonical = object (
      field "udt_struct_v0"
        (object (field "fields" (array (cons (named "balance" (string "i128")) nil)) end)) end);
}

abbrev pub reaches : ExportCallEvidence
reaches = record { host_imports = "l.6" ∷ []; dynamic_dispatch_reachable = false }

abbrev pub source : Artifact
source = record {
  format_version = 1;
  sha256 = "aa";
  size_bytes = 100;
  env_protocol_version = 22;
  env_pre_release = 0;
  metadata = ("binver", "1.0.0") ∷ [];
  host_imports = "l.6" ∷ [];
  functions = ("upgrade", upgrade_entry) ∷ [];
  events = [];
  user_types = ("Account", account_entry) ∷ [];
  public_type_boundaries = [];
  type_references = [];
  export_call_evidence = ("upgrade", reaches) ∷ [];
}

abbrev pub target : Artifact
target = record {
  format_version = 1;
  sha256 = "bb";
  size_bytes = 120;
  env_protocol_version = 22;
  env_pre_release = 0;
  metadata = ("binver", "1.1.0") ∷ [];
  host_imports = "l.6" ∷ [];
  functions = ("migrate", migrate_entry) ∷ ("upgrade", upgrade_entry) ∷ [];
  events = [];
  user_types = ("Account", account_entry) ∷ [];
  public_type_boundaries = [];
  type_references = [];
  export_call_evidence = ("upgrade", reaches) ∷ [];
}

abbrev pub source_schema : StorageSchema
source_schema = record {
  format_version = 1;
  complete = true;
  schema_version = 1;
  contract_version = "1.0.0";
  entries =
      record { key = "Balance"; durability = persistent; value_type = "i64"; migration = none }
      ∷ [];
}

abbrev pub target_schema : StorageSchema
target_schema = record {
  format_version = 1;
  complete = true;
  schema_version = 2;
  contract_version = "1.1.0";
  entries =
      record {
        key = "Balance";
        durability = persistent;
        value_type = "i128";
        migration = some (record { strategy = "lazy"; entrypoint = some "migrate"; notes = none });
      }
      ∷ [];
}

abbrev pub history : SchemaHistory
history = record {
  format_version = 1;
  complete = true;
  types =
      (
        "Account",
        record {
          fields =
              (
                "balance",
                record { value_type = string "i128"; first_seen = "1.0.0"; retired_in = none },
              )
              ∷ [];
          reserved_fields = [];
        },
      )
      ∷ [];
  source_sha256 = "cc";
}

abbrev pub context : ValidationContext
context = record {
  target_protocol_version = some 23;
  protocol_source = stellar_cli_network_info;
  network_name = some "testnet";
  network_id = some "id";
  network_passphrase = some "phrase";
  rpc_version = some "23.0.0";
  captive_core_version = none;
  observed_at_unix_seconds = some 1_700_000_000;
}

abbrev pub inputs : PlanInputPaths
inputs = record {
  source_wasm = "source.wasm";
  target_wasm = "target.wasm";
  source_schema = "source.json";
  target_schema = "target.json";
  schema_history = "history.json";
  policy = none;
}

abbrev pub operations : PlanOperations
operations = record {
  migration = some (record { entrypoint = "migrate"; arguments = ("operator", "alice") ∷ [] });
  invariant_check = record { program = "cargo"; arguments = "test" ∷ [] };
}
