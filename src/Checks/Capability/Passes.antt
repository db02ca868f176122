-- ===== src/Checks/Capability/Passes.antt =====
-- When the tests of the host functions push no error.
use soroban_upgrades.Base.{
  ℕ, String, Bool, true, false, not, ◌&&◌, ◌||◌, ◌≡◌, refl, ◌↔◌, Option, none, some, List, [], ◌∷◌,
  In, is_empty, filter_map, any, any-true_iff, any-append, arith, str_eq,
}
use soroban_upgrades.Base.Order.{string_ord}
use soroban_upgrades.Base.BTreeSet
use soroban_upgrades.Artifact.{
  ExportCallEvidence, Artifact, has_function, uses_cap_0086_sparse_read, uses_cap_0086_sparse_write,
  cap_0086_sparse_read_import, cap_0086_sparse_write_import,
}
use soroban_upgrades.Policy.{ValidationContext}
use soroban_upgrades.Report.{error, warning, info, blocks, is_error}
use soroban_upgrades.Report.Passes.{PassesIff}
use soroban_upgrades.Checks.Network.Passes.{Supports}
use soroban_upgrades.Checks.Capability.{
  check_cap_0086, check_upgrade_host_capability, exports_reaching, export_if, protocol_capability,
  cap_0086_protocol, reaches_update,
}

-- Some exported function reaches a host import by direct calls.
abbrev pub IsReached : String → Artifact → Type 0
IsReached host_import artifact =
    (export : String × ExportCallEvidence) × In export artifact.export_call_evidence
    × (BTreeSet.contains host_import export.1.host_imports ≡ true)

is_empty-exports :
    (test : ExportCallEvidence → Bool) (es : List (String × ExportCallEvidence))
    → is_empty (filter_map (export_if test) es)
      ≡ not (any (λ (e : String × ExportCallEvidence). test e.1) es)
is_empty-exports test [] = refl
is_empty-exports test ((n, e) ∷ es) = ground (arith, is_empty-exports test es)

exports_reaching_iff :
    (host_import : String) (artifact : Artifact)
    → (is_empty (exports_reaching host_import artifact) ≡ false) ↔ IsReached host_import artifact
unfolding exports_reaching
exports_reaching_iff host_import artifact =
    let test = λ (e : ExportCallEvidence). BTreeSet.contains host_import e.host_imports in
    let (there, back) =
      any-true_iff (λ (e : String × ExportCallEvidence). test e.1) artifact.export_call_evidence in
    let e = is_empty-exports test artifact.export_call_evidence in
    (λ h. there (ground arith), λ r. let k = back r in ground arith)

-- The protocol, where it is known, has the sparse-map functions.
abbrev pub SupportsSparse : Option ℕ → Type 0
SupportsSparse protocol = Supports protocol cap_0086_protocol

-- A candidate that imports one of the sparse-map functions is for a network that has them, where the
-- network's protocol is known, and some exported function reaches each that it imports.
abbrev pub IsSparseSound : Artifact → Option ℕ → Type 0
IsSparseSound target protocol =
    ((uses_cap_0086_sparse_read target || uses_cap_0086_sparse_write target) ≡ true
      → SupportsSparse protocol)
    × ((uses_cap_0086_sparse_read target ≡ true → IsReached cap_0086_sparse_read_import target)
        × (uses_cap_0086_sparse_write target ≡ true
            → IsReached cap_0086_sparse_write_import target))

capability_blocks :
    (r w : Bool) (protocol : Option ℕ)
    → (blocks (protocol_capability r w protocol) ≡ false)
      ↔ ((r || w) ≡ true → SupportsSparse protocol)
unfolding protocol_capability error info warning
capability_blocks r w none = ground arith
capability_blocks r w (some p) = ground arith

combine :
    {A P Q : Type 0} (c e f r w : Bool)
    → (c ≡ false) ↔ A
    → (e ≡ false) ↔ P
    → (f ≡ false) ↔ Q
    → ((c || ((r && e) || (w && f))) ≡ false) ↔ (A × ((r ≡ true → P) × (w ≡ true → Q)))
combine c e f r w a p q = ground arith

check_cap_0086-blocks :
    (target : Artifact) (context : ValidationContext)
    → blocks (check_cap_0086 target context) ≡ (
        blocks (
          protocol_capability
            (uses_cap_0086_sparse_read target)
            (uses_cap_0086_sparse_write target)
            context.target_protocol_version)
        || ((uses_cap_0086_sparse_read target
              && is_empty (exports_reaching cap_0086_sparse_read_import target))
            || (uses_cap_0086_sparse_write target
                && is_empty (exports_reaching cap_0086_sparse_write_import target))))
unfolding check_cap_0086 error warning
check_cap_0086-blocks target context =
    let found =
      protocol_capability (uses_cap_0086_sparse_read target) (uses_cap_0086_sparse_write target)
        context.target_protocol_version in
    rw (any-append is_error found) (ground arith)

-- For any target and context, the test pushes no error exactly where a target that imports a
-- sparse-map function is for a network that has them, if the network's protocol is known, and some
-- exported function reaches, by direct calls, each of the two that it imports.
pub check_cap_0086-passes :
    (target : Artifact) (context : ValidationContext)
    → PassesIff
        (check_cap_0086 target context)
        (IsSparseSound target context.target_protocol_version)
check_cap_0086-passes target context = record {
  iff =
      let r = uses_cap_0086_sparse_read target in
      let w = uses_cap_0086_sparse_write target in
      rw (check_cap_0086-blocks target context) (
        combine (blocks (protocol_capability r w context.target_protocol_version))
          (is_empty (exports_reaching cap_0086_sparse_read_import target))
          (is_empty (exports_reaching cap_0086_sparse_write_import target)) r w
          (capability_blocks r w context.target_protocol_version)
          (exports_reaching_iff cap_0086_sparse_read_import target)
          (exports_reaching_iff cap_0086_sparse_write_import target));
}

-- The Contract Spec has `upgrade`, and the export reaches the host function that replaces the code.
pub check_upgrade_host_capability-passes :
    (artifact : Artifact) (side code : String)
    → PassesIff (check_upgrade_host_capability artifact side code) (
        (str_eq side "source" ≡ true → has_function artifact "upgrade" ≡ true)
        × (has_function artifact "upgrade" ≡ true → reaches_update artifact ≡ true))
unfolding check_upgrade_host_capability error
check_upgrade_host_capability-passes artifact side code = record { iff = ground arith }
