-- ===== src/Samples/Impacts.antt =====
-- The analysis of impacts at a small change: a function keeps its signature, and a type two steps
-- behind its input changes.
use soroban_upgrades.Base.{
  ◌≤◌, String, ◌≡◌, refl, inl, true, false, some, List, [], ◌∷◌, In, length, same,
}
use soroban_upgrades.Base.Order.{string_ord, list_ord}
use soroban_upgrades.Base.BTreeMap
use soroban_upgrades.Base.BTreeSet
use soroban_upgrades.Json.Value.{string, Value-discrete}
use soroban_upgrades.Artifact.{
  Artifact, InterfaceEntry, PublicTypeBoundary, input, boundary_ord, position_ord, position_rank,
}
use soroban_upgrades.Report.{
  ImpactStep, PublicImpact, fact, unknown, impact_ord, step_ord, status_ord, status_rank,
}
use soroban_upgrades.Impact.{
  routes_to_type, trace_public_impacts, max_public_impact_paths, max_public_impact_depth,
}
use soroban_upgrades.Impact.Limits.{routes_to_type_bounds}
use soroban_upgrades.Impact.Routes.{IsRoute}
use soroban_upgrades.Impact.Exact.{routes_to_type_exact}
use soroban_upgrades.Impact.Trace.{IsImpact, trace_public_impacts_exact}

abbrev entry : (kind name text : String) → InterfaceEntry
entry kind name text = record { kind = kind; name = name; canonical = string text }

abbrev boundary : PublicTypeBoundary
boundary = record {
  function = "pay";
  position = input;
  index = 0;
  label = some "account";
  root_type = "Account";
}

-- The artifact with a given definition of `Coin`.
abbrev wallet : (coin : String) → Artifact
wallet coin = record {
  format_version = 1;
  sha256 = coin;
  size_bytes = 10;
  env_protocol_version = 22;
  env_pre_release = 0;
  metadata = [];
  host_imports = [];
  functions = ("pay", entry "function" "pay" "f") ∷ [];
  events = [];
  user_types =
      ("Account", entry "struct" "Account" "a") ∷ ("Coin", entry "struct" "Coin" coin) ∷ [];
  public_type_boundaries = boundary ∷ [];
  type_references = record { owner_type = "Account"; member = "coin"; target_type = "Coin" } ∷ [];
  export_call_evidence = [];
}

abbrev impact : PublicImpact
impact = record {
  changed_type = "Coin";
  boundary = boundary;
  steps = record { owner_type = "Account"; member = "coin"; target_type = "Coin" } ∷ [];
  structural_reachability = fact;
  runtime_compatibility = unknown;
}

traced : trace_public_impacts (wallet "v1") (wallet "v2") ≡ (impact ∷ [], false)
unfolding trace_public_impacts same Value-discrete BTreeMap.get BTreeMap.contains_key
    BTreeSet.collect BTreeSet.insert BTreeSet.intersection BTreeSet.contains boundary_ord impact_ord
    step_ord status_ord position_ord status_rank position_rank
traced = refl

trace_public_impacts_exact_example : IsImpact (wallet "v1") (wallet "v2") impact
trace_public_impacts_exact_example =
    (trace_public_impacts_exact (wallet "v1") (wallet "v2") impact).0 (rw traced (inl refl))

routes_to_type_exact_example :
    ((r : List ImpactStep)
      → In r (routes_to_type (wallet "v1") "Account" "Coin").0
      → (BTreeMap.contains_key "Account" (wallet "v1").user_types ≡ true)
        × IsRoute (wallet "v1").type_references "Coin" "Account" r)
    × ((routes_to_type (wallet "v1") "Account" "Coin").1 ≡ false
        → BTreeMap.contains_key "Account" (wallet "v1").user_types ≡ true
        → (r : List ImpactStep) → IsRoute (wallet "v1").type_references "Coin" "Account" r
        → In r (routes_to_type (wallet "v1") "Account" "Coin").0)
routes_to_type_exact_example = routes_to_type_exact (wallet "v1") "Account" "Coin"

routes_to_type_bounds_example :
    (length (routes_to_type (wallet "v1") "Account" "Coin").0 ≤ max_public_impact_paths)
    × ((s : List ImpactStep)
        → In s (routes_to_type (wallet "v1") "Account" "Coin").0
        → length s ≤ max_public_impact_depth)
routes_to_type_bounds_example = routes_to_type_bounds (wallet "v1") "Account" "Coin"
