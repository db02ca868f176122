-- ===== src/Impact.antt =====
-- `routes_to_type` and `trace_public_impacts` of crates/soroban-upgrades-core/src/lib.rs: the paths
-- inside the two specifications from a retained public boundary to a changed type.
mod Push
pub mod Routes
pub mod Limits
pub mod Exact
pub mod Selected
pub mod Trace
use soroban_upgrades.Base.{
  ℕ, zero, suc, ◌+◌, String, Bool, true, false, not, ◌||◌, List, [], ◌∷◌, ◌++◌, map, length, Option,
  none, some, ltb, leb, if◌then◌else◌, str_eq, filter, reverse, filter_map, flat_map, any, same,
}
use soroban_upgrades.Base.Order.{string_ord, list_ord}
use soroban_upgrades.Base.BTreeMap
use soroban_upgrades.Base.BTreeMap.{BTreeMap}
use soroban_upgrades.Base.BTreeSet
use soroban_upgrades.Base.BTreeSet.{BTreeSet}
use soroban_upgrades.Json.Value.{Value, Value-discrete}
use soroban_upgrades.Artifact.{
  InterfaceEntry, PublicTypeBoundary, TypeReference, Artifact, boundary_ord,
}
use soroban_upgrades.Report.{ImpactStep, PublicImpact, fact, unknown, step_ord, impact_ord}
use soroban_upgrades.Checks.Interface.{is_changed}
use mathlib.Core.Option

abbrev pub max_public_impact_depth : ℕ
max_public_impact_depth = 64

abbrev pub max_public_impact_paths : ℕ
max_public_impact_paths = 256

abbrev pub max_public_impact_steps : ℕ
max_public_impact_steps = 10_000

-- An entry of the stack: the type at hand, the steps to it, and the types on the way.
pub record Pending : Type 0 where
  pub current : String
  pub steps : List ImpactStep
  pub active_types : BTreeSet String

abbrev pub step_of : TypeReference → ImpactStep
step_of edge = record {
  owner_type = edge.owner_type;
  member = edge.member;
  target_type = edge.target_type;
}

abbrev pub follow : List ImpactStep → BTreeSet String → TypeReference → Pending
follow steps active edge = record {
  current = edge.target_type;
  steps = steps ++ step_of edge ∷ [];
  active_types = active;
}

-- The loop over the edges: the stack, the last element first, and whether the limit was met.
pub push_edges :
    (visited_steps : ℕ)
    → List ImpactStep
    → BTreeSet String
    → List TypeReference
    → List Pending
    → List Pending × Bool
push_edges visited_steps steps active [] pending = (pending, false)
push_edges visited_steps steps active (edge ∷ edges) pending =
    if leb max_public_impact_steps (length pending + visited_steps)
    then (pending, true)
    else push_edges visited_steps steps active edges (follow steps active edge ∷ pending)

-- The edges out of a type, last first.
abbrev pub edges_from : List TypeReference → String → List TypeReference
edges_from references current = filter (λ edge. str_eq edge.owner_type current) (reverse references)

abbrev pub is_over_limit : (visited_steps : ℕ) → List ImpactStep → BTreeSet (List ImpactStep) → Bool
is_over_limit visited_steps steps result =
    ltb max_public_impact_steps visited_steps
    || ltb max_public_impact_depth (length steps)
    || leb max_public_impact_paths (length result)

-- How a round of the outer loop ends: at a limit, or with a new stack and result.
pub data Next : Type 0 where
  limited : Next
  go : List Pending → BTreeSet (List ImpactStep) → Next

module _ (references : List TypeReference) (target_type : String) where
  -- The loop over the edges out of a type, and what the outer loop makes of its limit.
  pub push_all : (visited_steps : ℕ) → Pending → List Pending → BTreeSet (List ImpactStep) → Next
  push_all visited_steps p rest result =
      let pushed =
        push_edges visited_steps p.steps (BTreeSet.insert p.current p.active_types)
          (edges_from references p.current) rest in
      if pushed.1 then limited else go pushed.0 result

  -- One round, after `p` was popped and the round was counted.
  pub round : (visited_steps : ℕ) → Pending → List Pending → BTreeSet (List ImpactStep) → Next
  unfolding push_all
  round visited_steps p rest result =
      if is_over_limit visited_steps p.steps result
      then limited
      else if str_eq p.current target_type
      then go rest (BTreeSet.insert p.steps result)
      else if BTreeSet.contains p.current p.active_types
      then go rest result
      else push_all visited_steps p rest result

  -- The `while let Some(..) = pending.pop()` loop; `none` if the fuel runs out.
  pub loop :
      (fuel visited_steps : ℕ)
      → List Pending
      → BTreeSet (List ImpactStep)
      → Option (BTreeSet (List ImpactStep) × Bool)
  loop zero visited_steps [] result = some (result, false)
  loop zero visited_steps (p ∷ rest) result = none
  loop (suc fuel) visited_steps [] result = some (result, false)
  loop (suc fuel) visited_steps (p ∷ rest) result = elim (round (suc visited_steps) p rest result) [
    | limited ↦ some (result, true)
    | go pending result' ↦ loop fuel (suc visited_steps) pending result'
  ]

abbrev pub start : String → Pending
start root_type = record { current = root_type; steps = []; active_types = [] }

-- Each round counts a step, and the count is limited, so one round more than the limit is fuel
-- enough; the case of `none` never arises (`Limits`).
unfoldable pub routes_to_type :
    Artifact → (root_type target_type : String) → BTreeSet (List ImpactStep) × Bool
unfolding loop round push_edges
routes_to_type artifact root_type target_type =
    elim (loop artifact.type_references target_type (suc max_public_impact_steps) 0
      (if BTreeMap.contains_key root_type artifact.user_types then start root_type ∷ [] else [])
      []) [ none ↦ ([], true) | some r ↦ r ]

-- The name of a type whose definition `after` in the target is not the source's.
redefined : (name : String) → (before : InterfaceEntry) → Option InterfaceEntry → Option String
redefined name before none = none
redefined name before (some after) = if is_changed after before then some name else none

-- A type of the source that the target defines too, differently.
changed_type : (target : Artifact) → String × InterfaceEntry → Option String
unfolding redefined
changed_type target (name, before) = redefined name before (BTreeMap.get name target.user_types)

-- The types that both artifacts define, differently.
unfoldable pub changed_types : (source target : Artifact) → BTreeSet String
unfolding changed_type
changed_types source target = BTreeSet.collect (filter_map (changed_type target) source.user_types)

same_canonical : Option InterfaceEntry → Option InterfaceEntry → Bool
same_canonical none none = true
same_canonical none (some b) = false
same_canonical (some a) none = false
same_canonical (some a) (some b) = same Value-discrete a.canonical b.canonical

-- The boundaries that both artifacts have, of functions that did not change.
unfoldable pub retained_boundaries : (source target : Artifact) → List PublicTypeBoundary
unfolding same_canonical
retained_boundaries source target =
    filter
      (λ boundary.
        same_canonical (BTreeMap.get boundary.function source.functions)
          (BTreeMap.get boundary.function target.functions))
      (BTreeSet.intersection (BTreeSet.collect source.public_type_boundaries)
        (BTreeSet.collect target.public_type_boundaries))

abbrev impact_of : (changed_type : String) → PublicTypeBoundary → List ImpactStep → PublicImpact
impact_of changed_type boundary steps = record {
  changed_type = changed_type;
  boundary = boundary;
  steps = steps;
  structural_reachability = fact;
  runtime_compatibility = unknown;
}

-- The body of the inner loop: the impacts to insert, and whether a limit was met.
unfoldable pub impacts_of_pair :
    (source target : Artifact)
    → PublicTypeBoundary
    → (changed_type : String) → List PublicImpact × Bool
unfolding routes_to_type
impacts_of_pair source target boundary changed_type =
    let from = routes_to_type source boundary.root_type changed_type in
    let to = routes_to_type target boundary.root_type changed_type in
    (map (impact_of changed_type boundary) (BTreeSet.intersection from.0 to.0), from.1 || to.1)

unfoldable pub trace_public_impacts : (source target : Artifact) → List PublicImpact × Bool
unfolding impacts_of_pair changed_types retained_boundaries
trace_public_impacts source target =
    let pairs =
      flat_map
        (λ boundary. map (impacts_of_pair source target boundary) (changed_types source target))
        (retained_boundaries source target) in
    (BTreeSet.collect (flat_map (λ p. p.0) pairs), any (λ p. p.1) pairs)
