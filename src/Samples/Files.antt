-- ===== src/Samples/Files.antt =====
-- The files, the network and the crates of the sample release, for runs of the command line.
use soroban_upgrades.Base.{
  ℕ, zero, suc, String, true, ◌==◌, ◌≡◌, refl, none, some, List, [], ◌∷◌, length, if◌then◌else◌,
  str_eq,
}
use soroban_upgrades.Base.Result.{Result, ok}
use soroban_upgrades.Base.BTreeMap
use soroban_upgrades.Base.BTreeSet
use soroban_upgrades.Json.Value.{string}
use soroban_upgrades.Json.Documentation.{strip_documentation}
use soroban_upgrades.Json.Strict.{Reader, visit, parse_json_strict}
use soroban_upgrades.Artifact.{canonical_name}
use soroban_upgrades.Artifact.Spec.{
  function_v0, udt_struct_v0, SpecItem, bytes_n, address, i128, collect_udt_names,
}
use soroban_upgrades.Artifact.Wasm.{
  Bytes, call, custom_section, import_section, export_section, code_section_entry, Crates,
  require_single_contract_spec_section, read_contract_metadata, read_contract_env_metadata,
  read_host_imports, inspect_function_imports,
}
use soroban_upgrades.Artifact.Calls.{
  inspect_export_call_evidence, collect_export_call_evidence, read_body,
}
use soroban_upgrades.Artifact.Load.{
  from_wasm, read_interface, canonicalize_spec_entry, insert_user_type, ensure_unique_spec_members,
}
use soroban_upgrades.Policy.{default_policy}
use soroban_upgrades.Cli.{
  Output, Environment, take, read_bounded, load_artifact, load_schema, load_schema_history,
  history_from_json, fetch_contract_artifact, resolve_live_network, context_from_network_info,
}
use soroban_upgrades.Cli.Anyhow.{Outcome, done, failed, message}
use soroban_upgrades.Samples.Release.{
  plan_external, upgrade_entry, migrate_entry, account_entry, source, target, source_schema,
  target_schema, history, context,
}
use soroban_upgrades.Cli.Commands.{load_plan}
use soroban_upgrades.Samples.Plans.{plan}

-- Files are told apart by their lengths.
abbrev bytes_of_length : ℕ → Bytes
bytes_of_length zero = []
bytes_of_length (suc n) = 0 ∷ bytes_of_length n

abbrev upgrade_item : SpecItem
upgrade_item = record {
  entry =
      function_v0 "upgrade"
        (record { name = "new_wasm_hash"; type_ = bytes_n 32 }
          ∷ record { name = "operator"; type_ = address }
          ∷ [])
        [];
  to_value = ok upgrade_entry.canonical;
}

abbrev migrate_item : SpecItem
migrate_item = record {
  entry = function_v0 "migrate" (record { name = "operator"; type_ = address } ∷ []) [];
  to_value = ok migrate_entry.canonical;
}

abbrev account_item : SpecItem
account_item = record {
  entry = udt_struct_v0 "Account" (record { name = "balance"; type_ = i128 } ∷ []);
  to_value = ok account_entry.canonical;
}

abbrev crates : Crates
crates = record {
  validate_all = λ bytes. ok tt;
  sha256_hex =
      λ bytes. if length bytes == 100 then "aa" else (if length bytes == 120 then "bb" else "cc");
  parse_all = λ bytes.
      ok (custom_section "contractspecv0" [])
      ∷ ok (custom_section "contractenvmetav0" [])
      ∷ ok (custom_section "contractmetav0" (length bytes ∷ []))
      ∷ ok (import_section (ok (record { module_name = "l"; name = "6"; is_func = true }) ∷ []))
      ∷ ok (export_section (ok (record { name = "upgrade"; is_func = true; index = 1 }) ∷ []))
      ∷ ok (code_section_entry (ok (ok (call 0) ∷ [])))
      ∷ [];
  spec_from_wasm = λ bytes.
      if length bytes == 100
      then ok (upgrade_item ∷ account_item ∷ [])
      else ok (upgrade_item ∷ migrate_item ∷ account_item ∷ []);
  read_meta_entries = λ raw.
      ok (("binver", (elim raw [ [] ↦ "" | n ∷ _ ↦ if n == 100 then "1.0.0" else "1.1.0" ])) ∷ []);
  read_env_meta_entries = λ raw. ok ((22, 0) ∷ []);
}

abbrev reader_of : {T : Type 0} → (List ℕ → Result T) → Reader T
reader_of decode = record {
  document = λ bytes. ok (string "");
  from_slice = decode;
  duplicate_key_message = λ key. key;
}

abbrev file_of : String → Outcome Bytes
file_of path =
    if str_eq path "source.wasm"
    then done (bytes_of_length 100)
    else if str_eq path "target.wasm"
    then done (bytes_of_length 120)
    else if str_eq path "source.json"
    then done (bytes_of_length 1)
    else if str_eq path "target.json"
    then done (bytes_of_length 2)
    else if str_eq path "history.json"
    then done (bytes_of_length 3)
    else if str_eq path "plan.json"
    then done (bytes_of_length 4)
    else failed (message "no such file")

abbrev answer_of : List String → Outcome Output
answer_of [] = failed (message "no arguments")
answer_of (command ∷ arguments) = done (record {
  is_success = true;
  status = "0";
  stdout = (if str_eq command "contract" then bytes_of_length 100 else []);
  stderr = "";
})

abbrev pub environment : Environment
environment = record {
  PathBuf = String;
  new_path = λ text. text;
  to_str = λ path. some path;
  display = λ path. path;
  read_to_end = file_of;
  stellar = answer_of;
  unix_seconds = some 1_700_000_000;
  crates = crates;
  plans = plan_external;
  schema_reader =
      reader_of (λ bytes. if length bytes == 1 then ok source_schema else ok target_schema);
  policy_reader = reader_of (λ bytes. ok default_policy);
  history_reader = reader_of (λ bytes. ok history);
  plan_reader = reader_of (λ bytes. ok plan);
  network_info_reader = λ bytes. ok (record {
    id = "id";
    version = "23.0.0";
    captive_core_version = none;
    protocol_version = 23;
    passphrase = "phrase";
  });
}

pub loads_source : load_artifact environment "source.wasm" ≡ done source
unfolding load_artifact read_bounded take from_wasm read_interface canonicalize_spec_entry
    insert_user_type ensure_unique_spec_members inspect_export_call_evidence
    collect_export_call_evidence require_single_contract_spec_section read_contract_metadata
    read_contract_env_metadata read_host_imports inspect_function_imports strip_documentation
    BTreeMap.insert BTreeMap.contains_key BTreeMap.get BTreeSet.insert BTreeSet.contains
    BTreeSet.extend BTreeSet.collect canonical_name collect_udt_names read_body
loads_source = refl

pub loads_target : load_artifact environment "target.wasm" ≡ done target
unfolding load_artifact read_bounded take from_wasm read_interface canonicalize_spec_entry
    insert_user_type ensure_unique_spec_members inspect_export_call_evidence
    collect_export_call_evidence require_single_contract_spec_section read_contract_metadata
    read_contract_env_metadata read_host_imports inspect_function_imports strip_documentation
    BTreeMap.insert BTreeMap.contains_key BTreeMap.get BTreeSet.insert BTreeSet.contains
    BTreeSet.extend BTreeSet.collect canonical_name collect_udt_names read_body
loads_target = refl

pub loads_old : load_schema environment "source.json" ≡ done source_schema
unfolding load_schema read_bounded take parse_json_strict visit
loads_old = refl

pub loads_new : load_schema environment "target.json" ≡ done target_schema
unfolding load_schema read_bounded take parse_json_strict visit
loads_new = refl

pub loads_history : load_schema_history environment (some "history.json") ≡ done (some history)
unfolding load_schema_history read_bounded take parse_json_strict visit history_from_json
loads_history = refl

pub loads_plan : load_plan environment "plan.json" ≡ done plan
unfolding load_plan read_bounded take parse_json_strict visit
loads_plan = refl

pub fetches : fetch_contract_artifact environment "testnet" "CCONTRACT" ≡ done source
unfolding fetch_contract_artifact from_wasm read_interface canonicalize_spec_entry insert_user_type
    ensure_unique_spec_members inspect_export_call_evidence collect_export_call_evidence
    require_single_contract_spec_section read_contract_metadata read_contract_env_metadata
    read_host_imports inspect_function_imports strip_documentation BTreeMap.insert
    BTreeMap.contains_key BTreeMap.get BTreeSet.insert BTreeSet.contains BTreeSet.extend
    BTreeSet.collect canonical_name collect_udt_names read_body
fetches = refl

pub resolves : resolve_live_network environment "testnet" ≡ done context
unfolding resolve_live_network context_from_network_info
resolves = refl
