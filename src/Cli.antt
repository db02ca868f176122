-- ===== src/Cli.antt =====
-- The command line, crates/soroban-upgrades-cli/src/main.rs: its environment, and the functions
-- that read inputs and network evidence.
pub mod Anyhow
pub mod Guards
pub mod Reading
pub mod Contexts
pub mod Arguments
pub mod Commands
use soroban_upgrades.Base.{
  ℕ, zero, suc, ◌+◌, ◌*◌, String, Bool, not, List, [], ◌∷◌, Option, none, some, length, ltb,
  if◌then◌else◌,
}
use soroban_upgrades.Base.Text.{◌<>◌, show, is_empty_text}
use soroban_upgrades.Base.Result.{Result, ok, err}
use soroban_upgrades.Json.Strict.{Reader, parse_json_strict}
use soroban_upgrades.Artifact.{Artifact}
use soroban_upgrades.Artifact.Wasm.{Bytes, Crates}
use soroban_upgrades.Artifact.Load.{from_wasm, max_artifact_size_bytes}
use soroban_upgrades.Policy.{
  Policy, default_policy, ValidationContext, default_context, offline_assertion,
  stellar_cli_network_info,
}
use soroban_upgrades.Schema.{StorageSchema, SchemaHistory}
use soroban_upgrades.Report.{ValidationReport}
use soroban_upgrades.Validation.{validate_with_history}
use soroban_upgrades.Plan.{UpgradePlan}
use soroban_upgrades.Plan.External.{PlanExternal}
use Anyhow.{Outcome, done, ◌>>=◌, ◌>>◌, bail_if, with_context, from_core, some_or}

abbrev pub max_json_input_size_bytes : ℕ
max_json_input_size_bytes = 8 * 1024 * 1024

pub record NetworkInfo : Type 0 where
  pub id : String
  pub version : String
  pub captive_core_version : Option String
  pub protocol_version : ℕ
  pub passphrase : String

-- What a process leaves: its status, its standard output, its trimmed error text.
pub record Output : Type 0 where
  pub is_success : Bool
  pub status : String
  pub stdout : Bytes
  pub stderr : String

-- The operating system, the Stellar CLI, the clock and the crates, at the time of one run. The clock
-- is none where it stands before the Unix epoch.
pub record Environment : Type 1 where
  pub PathBuf : Type 0
  pub new_path : String → PathBuf
  pub to_str : PathBuf → Option String
  pub display : PathBuf → String
  pub read_to_end : PathBuf → Outcome Bytes
  pub stellar : List String → Outcome Output
  pub unix_seconds : Option ℕ
  pub crates : Crates
  pub plans : PlanExternal
  pub schema_reader : Reader StorageSchema
  pub policy_reader : Reader Policy
  pub history_reader : Reader SchemaHistory
  pub plan_reader : Reader UpgradePlan
  pub network_info_reader : Bytes → Result NetworkInfo

-- `Read::take`, up to the end
unfoldable pub take {ℓ} : {A : Type ℓ} → ℕ → List A → List A
take zero xs = []
take (suc n) [] = []
take (suc n) (x ∷ xs) = x ∷ take n xs

-- `SchemaHistory::from_json`: the history keeps the hash of its own text.
unfoldable pub history_from_json : Crates → Reader SchemaHistory → Bytes → Result SchemaHistory
history_from_json c r bytes = with_source_hash (parse_json_strict r bytes)
  where
    with_source_hash : Result SchemaHistory → Result SchemaHistory
    with_source_hash (ok history) = ok (record history { source_sha256 = c.sha256_hex bytes })
    with_source_hash (err e) = err e

module _ (e : Environment) where
  unfoldable pub read_bounded : e.PathBuf → (limit : ℕ) → (kind : String) → Outcome Bytes
  unfolding take
  read_bounded path limit kind = do
    content ← with_context (e.read_to_end path) ("reading " <> e.display path)
    let bytes = take (limit + 1) content
    bail_if (ltb limit (length bytes))
        (kind <> " " <> e.display path <> " exceeds the " <> show limit <> " byte input limit")
    done bytes

  unfoldable pub load_artifact : e.PathBuf → Outcome Artifact
  unfolding read_bounded
  load_artifact path = do
    bytes ← read_bounded path max_artifact_size_bytes "WASM artifact"
    with_context (from_core (from_wasm e.crates bytes)) ("inspecting " <> e.display path)

  unfoldable pub load_schema : e.PathBuf → Outcome StorageSchema
  unfolding read_bounded
  load_schema path = do
    bytes ← read_bounded path max_json_input_size_bytes "JSON storage schema"
    with_context (from_core (parse_json_strict e.schema_reader bytes))
        ("parsing " <> e.display path)

  unfoldable pub load_policy : Option e.PathBuf → Outcome Policy
  unfolding read_bounded
  load_policy none = done default_policy
  load_policy (some path) = do
    bytes ← read_bounded path max_json_input_size_bytes "JSON policy"
    with_context (from_core (parse_json_strict e.policy_reader bytes))
        ("parsing " <> e.display path)

  unfoldable pub load_schema_history : Option e.PathBuf → Outcome (Option SchemaHistory)
  unfolding read_bounded
  load_schema_history none = done none
  load_schema_history (some path) = do
    bytes ← read_bounded path max_json_input_size_bytes "JSON schema history"
    history ←
        with_context (from_core (history_from_json e.crates e.history_reader bytes))
          ("parsing " <> e.display path)
    done (some history)

  -- `path.map(load_schema).transpose()`
  abbrev pub load_optional_schema : Option e.PathBuf → Outcome (Option StorageSchema)
  load_optional_schema none = done none
  load_optional_schema (some path) = do schema ← load_schema path; done (some schema)

  unfoldable pub load_report :
      (from to : e.PathBuf) (from_schema to_schema policy : Option e.PathBuf)
      → ValidationContext
      → (schema_history : Option e.PathBuf) → Outcome ValidationReport
  load_report from to from_schema to_schema policy context schema_history = do
    source ← load_artifact from
    target ← load_artifact to
    old_schema ← load_optional_schema from_schema
    new_schema ← load_optional_schema to_schema
    policy ← load_policy policy
    history ← load_schema_history schema_history
    done (
        validate_with_history e.plans.checks source target old_schema new_schema policy context
          history)

  -- The text of a process that failed: what it wrote, or its status.
  abbrev failure_detail : Output → String
  failure_detail output =
      if is_empty_text output.stderr then "stellar exited with " <> output.status else output.stderr

  unfoldable pub context_from_network_info :
      (network : String) → Bytes → (observed_at_unix_seconds : ℕ) → Outcome ValidationContext
  context_from_network_info network json observed_at_unix_seconds = do
    info ←
        with_context (from_core (e.network_info_reader json))
          ("parsing Stellar CLI network info for `" <> network <> "`")
    done (record {
      target_protocol_version = some info.protocol_version;
      protocol_source = stellar_cli_network_info;
      network_name = some network;
      network_id = some info.id;
      network_passphrase = some info.passphrase;
      rpc_version = some info.version;
      captive_core_version = info.captive_core_version;
      observed_at_unix_seconds = some observed_at_unix_seconds;
    })

  unfoldable pub resolve_live_network : (network : String) → Outcome ValidationContext
  unfolding context_from_network_info
  resolve_live_network network = do
    output ←
        with_context
          (e.stellar ("network" ∷ "info" ∷ "--network" ∷ network ∷ "--output" ∷ "json" ∷ []))
          ("running `stellar network info`. Install Stellar CLI or use --protocol-version for an "
            <> "explicit offline assertion")
    bail_if (not output.is_success) (
        "live network query for `"
        <> network
        <> "` failed: "
        <> failure_detail output
        <> ". Configure that Stellar CLI network or use --protocol-version for an explicit "
        <> "offline assertion")
    observed_at_unix_seconds ← some_or e.unix_seconds "system clock is before the Unix epoch"
    context_from_network_info network output.stdout observed_at_unix_seconds

  unfoldable pub resolve_validation_context :
      (network : Option String) (protocol_version : Option ℕ) → Outcome ValidationContext
  resolve_validation_context (some network) none = resolve_live_network network
  resolve_validation_context network (some protocol_version) = done (record default_context {
    target_protocol_version = some protocol_version;
    protocol_source = offline_assertion;
    network_name = network;
  })
  resolve_validation_context none none = done default_context

  unfoldable pub fetch_contract_artifact : (network contract_id : String) → Outcome Artifact
  fetch_contract_artifact network contract_id = do
    output ←
        with_context
          (e.stellar ("contract" ∷ "fetch" ∷ "--id" ∷ contract_id ∷ "--network" ∷ network ∷ []))
          "running `stellar contract fetch`. Install Stellar CLI or use an offline plan"
    bail_if (not output.is_success) (
        "failed to fetch contract "
        <> contract_id
        <> " from `"
        <> network
        <> "`: "
        <> failure_detail output)
    with_context (from_core (from_wasm e.crates output.stdout))
        ("inspecting contract " <> contract_id <> " fetched from `" <> network <> "`")

  unfoldable pub path_text : e.PathBuf → Outcome String
  path_text path = some_or (e.to_str path) ("path is not valid UTF-8: " <> e.display path)
