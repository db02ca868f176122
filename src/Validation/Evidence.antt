-- ===== src/Validation/Evidence.antt =====
-- `evidence_item` and `build_evidence_coverage`: what a report establishes, and what it does not.
use soroban_upgrades.Base.{String, Bool, ◌&&◌, Option, some, if◌then◌else◌, is_some}
use soroban_upgrades.Policy.{
  ProtocolSource, unpinned, offline_assertion, stellar_cli_network_info, ValidationContext,
}
use soroban_upgrades.Report.{
  EvidenceStatus, fact, inference, unknown, EvidenceItem, EvidenceCoverage,
}

abbrev pub evidence_item :
    EvidenceStatus → (claim basis : String) → (limitation : Option String) → EvidenceItem
evidence_item status claim basis limitation = record {
  status = status;
  claim = claim;
  basis = basis;
  limitation = limitation;
}

abbrev protocol_not_established : EvidenceItem
protocol_not_established =
    evidence_item unknown "The target network protocol is not established."
      "No complete live network evidence is present."
      (some "Resolve a named network before producing an executable release plan.")

-- The `match` on the source of the protocol version.
unfoldable pub network_evidence : ProtocolSource → ValidationContext → EvidenceItem
network_evidence stellar_cli_network_info context =
    if is_some context.target_protocol_version
      && is_some context.network_name
      && is_some context.network_id
      && is_some context.observed_at_unix_seconds
    then evidence_item fact
        "The named network reported the recorded target protocol at the observation time."
        "Live Stellar CLI network-info evidence is embedded in the report."
        (some "Network state can change. Resolve it again immediately before execution.")
    else protocol_not_established
network_evidence offline_assertion context =
    evidence_item inference "The selected protocol is an offline release assumption."
      "The operator supplied a protocol number without live network evidence."
      (some "This does not prove that any named network has activated the protocol.")
network_evidence unpinned context = protocol_not_established

unfoldable pub build_evidence_coverage :
    ValidationContext → (storage_schema_checked schema_history_checked : Bool) → EvidenceCoverage
unfolding network_evidence
build_evidence_coverage context storage_schema_checked schema_history_checked = record {
  compiled_contract_spec =
      evidence_item fact
        "The report compares the exact compiled Contract Spec entries in both artifacts."
        "The validator parsed one unambiguous contractspecv0 section from each hashed WASM."
        (some "Contract Spec is not a complete deployed-caller or storage inventory.");
  artifact_host_imports =
      evidence_item fact
        "The report records artifact-wide host imports and direct per-export reachability."
        "The validator inspected the WASM import, export, and code sections."
        (some "Dynamic dispatch makes static reachability incomplete.");
  target_network_protocol = network_evidence context.protocol_source context;
  declared_storage_schema =
      if storage_schema_checked
      then evidence_item fact
          "The source-controlled source and target storage declarations were compared."
          "A complete manifest pair was supplied and bound to the validation report."
          (some "A declaration does not prove that it covers every ledger entry.")
      else evidence_item unknown "The declared storage change is not established."
          "No complete source/target manifest pair was supplied."
          (some "Contract Spec alone cannot recover a complete storage inventory.");
  declared_schema_history =
      if schema_history_checked
      then evidence_item fact "A cumulative source-controlled field history was checked."
          "The history bytes are hashed into the validation and release plan."
          (some "The history is a reviewed declaration, not proof of ledger-wide migration.")
      else evidence_item unknown "Historical field-name lifecycle is not established."
          "No cumulative schema-history manifest was supplied."
          (some "A two-release diff cannot detect older retired-name reuse.");
  ledger_storage_coverage =
      evidence_item unknown "Complete live and archived ledger storage coverage is not proven."
        "Artifact validation does not sample or enumerate deployed ledger state."
        (some "Use an application-specific snapshot rehearsal before a production migration.");
  deployed_caller_graph =
      evidence_item unknown "The complete deployed caller graph and rollout order are not proven."
        "Public impact paths are structural paths inside the two compiled Contract Specs."
        (some "External contracts and off-chain clients can exist outside both artifacts.");
  cap0086_per_type_reader_binding =
      evidence_item unknown "A global sparse-reader import is not bound to the changed type."
        "Per-export direct-call reachability narrows the evidence but generated type-level binding is absent."
        (some "Approve schema evolution only after type-specific runtime and rollout evidence.");
  migration_completion =
      evidence_item unknown
        "Ledger-wide migration completion and invariant preservation are not proven."
        "The validator checks declarations but does not execute application migrations."
        (some "Record application-specific rehearsal, completion, and invariant evidence.");
}
