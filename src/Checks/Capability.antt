-- ===== src/Checks/Capability.antt =====
-- `check_cap_0086` and `check_upgrade_host_capability`: host functions that the artifact imports, and
-- the exports that reach them.
pub mod Passes
use soroban_upgrades.Base.{
  ℕ, String, Bool, true, false, not, ◌&&◌, ◌||◌, List, [], ◌∷◌, ◌++◌, Option, none, some, leb, ltb,
  if◌then◌else◌, is_some_and, filter_map, is_empty, str_eq,
}
use soroban_upgrades.Base.Order.{string_ord}
use soroban_upgrades.Base.BTreeMap
use soroban_upgrades.Base.BTreeSet
use soroban_upgrades.Base.Text.{◌<>◌, show, join}
use soroban_upgrades.Artifact.{
  ExportCallEvidence, Artifact, has_function, uses_cap_0086_sparse_read, uses_cap_0086_sparse_write,
  cap_0086_sparse_read_import, cap_0086_sparse_write_import, update_current_contract_wasm_import,
}
use soroban_upgrades.Policy.{ValidationContext}
use soroban_upgrades.Report.{Finding, error, warning, info}

abbrev pub cap_0086_protocol : ℕ
cap_0086_protocol = 28

-- `.then_some(export)` under a test of an export's evidence
abbrev pub export_if : (ExportCallEvidence → Bool) → String × ExportCallEvidence → Option String
export_if test (export, evidence) = if test evidence then some export else none

-- The exports whose direct calls reach a host import.
unfoldable pub exports_reaching : String → Artifact → List String
exports_reaching host_import target =
    filter_map (export_if (λ e. BTreeSet.contains host_import e.host_imports))
      target.export_call_evidence

unfoldable pub dynamic_exports : Artifact → List String
dynamic_exports target =
    filter_map (export_if (λ e. e.dynamic_dispatch_reachable)) target.export_call_evidence

-- The `match` on the protocol version.
unfoldable pub protocol_capability : (sparse_read sparse_write : Bool) → Option ℕ → List Finding
protocol_capability sparse_read sparse_write none = []
protocol_capability sparse_read sparse_write (some protocol) =
    if (sparse_read || sparse_write) && ltb protocol cap_0086_protocol
    then error "CAP001" "Candidate requires CAP-0086 before network activation"
        ("The target imports CAP-0086 sparse-map host functions, which require protocol "
          <> show cap_0086_protocol
          <> ", but the selected target protocol is "
          <> show protocol
          <> ".")
        "Deploy a protocol-27-compatible build or wait until the target network activates protocol 28 and re-run validation."
      ∷ []
    else if leb cap_0086_protocol protocol && sparse_read
    then info "CAP002" "Candidate imports CAP-0086 sparse decoding"
        ("The candidate imports `sparse_map_unpack_to_linear_memory` and the selected protocol "
          <> show protocol
          <> " supports it. This artifact-level fact does not prove which contract type uses the sparse reader.")
        "Require type-specific reader evidence plus field-history and cross-contract rollout checks before approving schema evolution."
      ∷ []
    else if leb cap_0086_protocol protocol
    then warning "CAP003"
        "Protocol supports CAP-0086 but the candidate does not use sparse decoding"
        ("Protocol "
          <> show protocol
          <> " exposes CAP-0086, but this WASM does not import `sparse_map_unpack_to_linear_memory`. Its contract-type decoding remains strict.")
        "Use an SDK or explicit implementation that opts into CAP-0086 before treating missing or additional fields as compatible."
      ∷ []
    else []

unfoldable pub check_cap_0086 : Artifact → ValidationContext → List Finding
unfolding protocol_capability exports_reaching dynamic_exports
check_cap_0086 target context =
    let sparse_read = uses_cap_0086_sparse_read target in
    let sparse_write = uses_cap_0086_sparse_write target in
    let readers = exports_reaching cap_0086_sparse_read_import target in
    let writers = exports_reaching cap_0086_sparse_write_import target in
    let dynamic = dynamic_exports target in
    protocol_capability sparse_read sparse_write context.target_protocol_version
    ++ ((if sparse_write && not sparse_read
          then warning "CAP004" "Sparse writer is enabled without sparse reader"
              "Omitting `Void` fields can break older strict readers in cross-contract calls when contracts are upgraded independently."
              "Prefer sparse reads first, keep sparse writes explicitly opt-in, and validate a staged dependency-aware rollout."
            ∷ []
          else [])
        ++ ((if sparse_read && is_empty readers
              then error "CAP007"
                  "Sparse-reader import is not directly reachable from an exported function"
                  "The candidate imports `m.c`, but the direct-call graph does not connect that import to any exported function. An unused or dynamically reached import is not evidence that a contract entrypoint decodes sparsely."
                  "Provide an artifact whose relevant exported entrypoint directly reaches the sparse reader, and retain the call evidence with the report."
                ∷ []
              else [])
            ++ ((if sparse_write && is_empty writers
                  then error "CAP009"
                      "Sparse-writer import is not directly reachable from an exported function"
                      "The candidate imports `m.b`, but the direct-call graph does not connect that import to any exported function. An unused or dynamically reached import is not evidence that a contract entrypoint writes sparsely."
                      "Provide an artifact whose relevant exported entrypoint directly reaches the sparse writer, and retain the call evidence with the report."
                    ∷ []
                  else [])
                ++ (if (sparse_read || sparse_write) && not (is_empty dynamic)
                    then warning "CAP008" "Dynamic dispatch limits CAP-0086 call-graph evidence"
                        ("Exported function(s) "
                          <> join ", " dynamic
                          <> " reach indirect or reference calls, so static host-import reachability is incomplete even where direct CAP-0086 paths are present.")
                        "Remove dynamic dispatch from the compatibility-critical path or provide a separately verified complete call-target set."
                      ∷ []
                    else []))))

-- The `upgrade` export reaches the host function that replaces the contract's code.
unfoldable pub reaches_update : Artifact → Bool
reaches_update artifact =
    is_some_and (BTreeMap.get "upgrade" artifact.export_call_evidence)
      (λ e. BTreeSet.contains update_current_contract_wasm_import e.host_imports)

unfoldable pub check_upgrade_host_capability : Artifact → (side code : String) → List Finding
unfolding reaches_update
check_upgrade_host_capability artifact side code =
    if not (has_function artifact "upgrade")
    then (if str_eq side "source"
        then error code "Source has no executable upgrade path"
            "The source Contract Spec has no `upgrade` function for the planned replacement."
            "Deploy through an existing authorized replacement path before you use the standard planner."
          ∷ []
        else [])
    else if not (reaches_update artifact)
    then error code (side <> " upgrade function cannot replace WASM")
        ("The " <> side <> " `upgrade` export does not reach Stellar host import `"
          <> update_current_contract_wasm_import <> "`.")
        "Call `update_current_contract_wasm` from the authorized upgrade path and rebuild the exact candidate."
      ∷ []
    else []
