-- ===== src/Checks/Network.antt =====
-- `check_policy`, `check_environment_compatibility` and `check_protocol_context`.
pub mod Passes
use soroban_upgrades.Base.{
  ℕ, String, Bool, true, false, not, ◌&&◌, List, [], ◌∷◌, ◌++◌, Option, none, some, ◌==◌, ltb,
  if◌then◌else◌, is_some, is_some_and, unwrap_or, filter_map, is_empty,
}
use soroban_upgrades.Base.Text.{◌<>◌, show, join}
use soroban_upgrades.Artifact.{Artifact}
use soroban_upgrades.Policy.{
  Policy, ProtocolSource, unpinned, offline_assertion, stellar_cli_network_info, ValidationContext,
}
use soroban_upgrades.Report.{Finding, error, warning, info}

abbrev labelled : Bool × String → Option String
labelled (true, label) = some label
labelled (false, label) = none

-- The protections that a policy turns off, by the labels of the report.
unfoldable pub disabled : Policy → List String
disabled policy = filter_map labelled (
    (not policy.require_upgrade_function, "retained upgrade entrypoint")
    ∷ (not policy.require_semver_increase, "increasing `binver`")
    ∷ (not policy.require_storage_schema, "complete storage schemas")
    ∷ (not policy.require_schema_history, "complete schema history")
    ∷ (not policy.deny_removed_functions, "removed public functions")
    ∷ (not policy.deny_changed_functions, "changed function signatures")
    ∷ (not policy.deny_removed_events, "removed contract events")
    ∷ (not policy.deny_changed_events, "changed contract events")
    ∷ (not policy.deny_changed_user_types, "changed or removed user-defined types")
    ∷ [])

unfoldable pub check_policy : Policy → List Finding
unfolding disabled
check_policy policy =
    (if not (policy.format_version == 1)
      then error "POL001" "Unsupported policy format"
          ("Policy `"
            <> policy.name
            <> "` uses format version "
            <> show policy.format_version
            <> ". This build supports version 1.")
          "Regenerate the policy with a supported format or upgrade the validator before relying on its result."
        ∷ []
      else [])
    ++ (if is_empty (disabled policy)
        then []
        else warning "POL002" "Policy disables compatibility protections"
            ("Policy `"
              <> policy.name
              <> "` disables checks for: "
              <> join ", " (disabled policy)
              <> ".")
            "Use the conservative default or ensure every exception is reviewed and preserved in the plan digest."
          ∷ [])

unfoldable pub check_environment_compatibility : Artifact → ValidationContext → List Finding
check_environment_compatibility target context =
    (if not (target.env_pre_release == 0)
      then error "ENV001" "Candidate uses a prerelease host interface"
          ("The candidate declares environment protocol "
            <> show target.env_protocol_version
            <> " with prerelease value "
            <> show target.env_pre_release
            <> ".")
          "Build the candidate with a stable Soroban SDK before release."
        ∷ []
      else [])
    ++ (if is_some_and context.target_protocol_version (λ p. ltb p target.env_protocol_version)
        then error "ENV002" "Candidate requires a newer network protocol"
            ("The candidate requires protocol "
              <> show target.env_protocol_version
              <> ", but the selected network evidence reports protocol "
              <> show (unwrap_or context.target_protocol_version 0)
              <> ".")
            "Use a compatible SDK or wait for the network protocol upgrade."
          ∷ []
        else [])

-- A live context with all that the check asks for.
abbrev pub has_live_evidence : ValidationContext → Bool
has_live_evidence context =
    is_some context.target_protocol_version
    && is_some context.network_name
    && is_some context.network_id
    && is_some context.network_passphrase
    && is_some context.rpc_version
    && is_some context.observed_at_unix_seconds

unfoldable pub protocol_finding : ProtocolSource → ValidationContext → Finding
protocol_finding unpinned context =
    if not (is_some context.target_protocol_version)
    then warning "NET001" "Target protocol was not pinned"
        "Protocol-dependent host capabilities cannot be approved without the target network's active protocol version."
        "Pass `--network` for a live Stellar CLI network read or `--protocol-version` for an explicitly recorded offline assertion."
    else error "NET002" "Protocol version has no evidence source"
        "The validation context contains a protocol version but does not state whether it came from a live network read or an offline assertion."
        "Construct the context through the CLI resolver so provenance is recorded and plan-bound."
protocol_finding offline_assertion context =
    if is_some context.target_protocol_version
    then warning "NET003" "Target protocol is an offline assertion"
        "The protocol version was supplied by the operator and was not read from live network state during this validation."
        "Re-run with `--network` immediately before release, or preserve independent protocol evidence with the reviewed plan."
    else error "NET004" "Offline protocol assertion is empty"
        "The context marks its protocol as an offline assertion but contains no protocol version."
        "Supply an explicit protocol version or use a live network read."
protocol_finding stellar_cli_network_info context =
    if has_live_evidence context
    then info "NET005" "Target protocol resolved from live network state"
        ("Stellar CLI read protocol "
          <> show (unwrap_or context.target_protocol_version 0)
          <> " for network `"
          <> unwrap_or context.network_name "unknown"
          <> "` (network ID "
          <> unwrap_or context.network_id "unknown"
          <> ").")
        "Keep this evidence in the content-addressed plan and resolve it again immediately before submission."
    else error "NET006" "Live network evidence is incomplete"
        "The context claims a Stellar CLI network read but is missing protocol, network identity, passphrase, RPC version, or observation time."
        "Discard the incomplete context and repeat the live network query."

unfoldable pub check_protocol_context : ValidationContext → List Finding
unfolding protocol_finding
check_protocol_context context = protocol_finding context.protocol_source context ∷ []
