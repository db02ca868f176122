-- ===== src/Checks/Network/Passes.antt =====
-- When the tests of the policy, the host interface and the network context push no error.
use soroban_upgrades.Base.{ℕ, true, ◌≡◌, ◌≤◌, Option, none, some, is_some, arith}
use soroban_upgrades.Artifact.{Artifact}
use soroban_upgrades.Policy.{
  Policy, ProtocolSource, unpinned, offline_assertion, stellar_cli_network_info, ValidationContext,
}
use soroban_upgrades.Report.{error, warning, info}
use soroban_upgrades.Report.Passes.{PassesIff}
use soroban_upgrades.Checks.Network.{
  check_policy, check_environment_compatibility, check_protocol_context, has_live_evidence,
  protocol_finding,
}

pub check_policy-passes :
    (policy : Policy) → PassesIff (check_policy policy) (policy.format_version ≡ 1)
unfolding check_policy error warning
check_policy-passes policy = record { iff = ground arith }

-- The bound that a network's protocol puts on the candidate, where the protocol is known.
abbrev pub Supports : Option ℕ → ℕ → Type 0
Supports none required = Unit
Supports (some protocol) required = required ≤ protocol

-- The candidate is built for a stable host interface, not newer than the network's.
pub check_environment_compatibility-passes :
    (target : Artifact) (context : ValidationContext)
    → PassesIff (check_environment_compatibility target context) (
        (target.env_pre_release ≡ 0)
        × Supports context.target_protocol_version target.env_protocol_version)
unfolding check_environment_compatibility error
check_environment_compatibility-passes target context = record { iff = ground arith }

-- What a context must say of where its protocol version comes from.
abbrev pub HasProvenance : ProtocolSource → ValidationContext → Type 0
HasProvenance unpinned context = context.target_protocol_version ≡ none
HasProvenance offline_assertion context = is_some context.target_protocol_version ≡ true
HasProvenance stellar_cli_network_info context = has_live_evidence context ≡ true

pub check_protocol_context-passes :
    (context : ValidationContext)
    → PassesIff (check_protocol_context context) (HasProvenance context.protocol_source context)
unfolding check_protocol_context protocol_finding error warning info
check_protocol_context-passes context = record { iff = ground arith }
