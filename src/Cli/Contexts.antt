-- ===== src/Cli/Contexts.antt =====
-- The network contexts that `resolve_validation_context` gives.
use soroban_upgrades.Base.{
  ℕ, String, true, false, not, List, [], ◌∷◌, ◌≡◌, refl, subst, Option, none, some, is_some,
}
use soroban_upgrades.Policy.{
  ProtocolSource, unpinned, offline_assertion, stellar_cli_network_info, ValidationContext,
}
use soroban_upgrades.Report.{blocks}
use soroban_upgrades.Checks.Network.{check_protocol_context}
use soroban_upgrades.Checks.Network.Passes.{HasProvenance, check_protocol_context-passes}
use soroban_upgrades.Cli.{
  Environment, resolve_validation_context, resolve_live_network, context_from_network_info,
}
use soroban_upgrades.Cli.Anyhow.{done, bail_if, with_context, from_core, some_or, >>=_iff, done_inj}

-- The source of a context that is resolved: the network is asked where one is named and no version is
-- asserted.
abbrev pub source_of : (network : Option String) (protocol_version : Option ℕ) → ProtocolSource
source_of (some network) none = stellar_cli_network_info
source_of network (some version) = offline_assertion
source_of none none = unpinned

-- What a resolved context says: where it comes from, with the evidence that its source needs, and the
-- named network and the asserted version, where there are.
pub record IsResolved (network : Option String) (protocol_version : Option ℕ)
    (c : ValidationContext) : Type 0 where
  pub source : c.protocol_source ≡ source_of network protocol_version
  pub has_provenance : HasProvenance c.protocol_source c
  pub same_network : c.network_name ≡ network
  pub same_version : is_some protocol_version ≡ true → c.target_protocol_version ≡ protocol_version

resolve_live_network-IsResolved :
    (e : Environment) (network : String) (c : ValidationContext)
    → resolve_live_network e network ≡ done c
    → IsResolved (some network) none c
unfolding resolve_live_network context_from_network_info
resolve_live_network-IsResolved e network c h =
    let query : List String =
      "network" ∷ "info" ∷ "--network" ∷ network ∷ "--output" ∷ "json" ∷ [] in
    let (output, l0, h0) = (>>=_iff (with_context (e.stellar query) _) _ c).0 h in
    let (u, l1, h1) = (>>=_iff (bail_if (not output.is_success) _) _ c).0 h0 in
    let (seconds, l2, h2) = (>>=_iff (some_or e.unix_seconds _) _ c).0 h1 in
    let (info, l3, h3) =
      (>>=_iff (with_context (from_core (e.network_info_reader output.stdout)) _) _ c).0 h2 in
    subst (IsResolved (some network) none) (done_inj h3)
      (record { source = refl; has_provenance = refl; same_network = refl; same_version = λ x. cc })

resolve_validation_context-IsResolved :
    (e : Environment) (network : Option String) (protocol_version : Option ℕ)
    (c : ValidationContext)
    → resolve_validation_context e network protocol_version ≡ done c
    → IsResolved network protocol_version c
unfolding resolve_validation_context
resolve_validation_context-IsResolved e (some network) none c h =
    resolve_live_network-IsResolved e network c h
resolve_validation_context-IsResolved e (some network) (some version) c h =
    subst (IsResolved (some network) (some version)) (done_inj h) (record {
      source = refl;
      has_provenance = refl;
      same_network = refl;
      same_version = λ x. refl;
    })
resolve_validation_context-IsResolved e none (some version) c h =
    subst (IsResolved none (some version)) (done_inj h) (record {
      source = refl;
      has_provenance = refl;
      same_network = refl;
      same_version = λ x. refl;
    })
resolve_validation_context-IsResolved e none none c h =
    subst (IsResolved none none) (done_inj h)
      (record { source = refl; has_provenance = refl; same_network = refl; same_version = λ x. cc })

-- Each context that is resolved has the named network and the asserted version, where there are; it
-- is live exactly where a network is named and no version is asserted, and the check of the protocol
-- context pushes no error on it.
pub resolve_validation_context_lem :
    (e : Environment) (network : Option String) (protocol_version : Option ℕ)
    (c : ValidationContext)
    → resolve_validation_context e network protocol_version ≡ done c
    → IsResolved network protocol_version c × (blocks (check_protocol_context c) ≡ false)
resolve_validation_context_lem e network protocol_version c h =
    let r = resolve_validation_context-IsResolved e network protocol_version c h in
    (r, (check_protocol_context-passes c).iff.1 r.has_provenance)
