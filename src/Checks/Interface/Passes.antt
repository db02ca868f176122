-- ===== src/Checks/Interface/Passes.antt =====
-- When the comparison of the public interfaces and of the versions pushes no error.
use soroban_upgrades.Base.{
  String, Bool, true, false, ◌≡◌, Option, none, some, In, arith, same_iff, Ordering,
}
use soroban_upgrades.Base.BTreeMap
use soroban_upgrades.Base.BTreeMap.{BTreeMap}
use soroban_upgrades.Json.Value.{Value-discrete}
use soroban_upgrades.Artifact.{InterfaceEntry, Artifact, version}
use soroban_upgrades.Policy.{Policy, ValidationContext}
use soroban_upgrades.Report.{error}
use soroban_upgrades.Report.Passes.{PassesIff, append_passes, each_passes}
use soroban_upgrades.Checks.External.{External}
use soroban_upgrades.Checks.Interface.{
  compare_interfaces, check_versions, function_change, event_change, type_change,
  compare_version_texts, version_order,
}

-- The target keeps an entry, as far as the policy asks: it may not be missing where removals are
-- denied, nor have another canonical form where changes are denied.
abbrev pub Keeps :
    (deny_removed deny_changed : Bool) → InterfaceEntry → Option InterfaceEntry → Type 0
Keeps deny_removed deny_changed old none = deny_removed ≡ false
Keeps deny_removed deny_changed old (some new) = deny_changed ≡ true → old.canonical ≡ new.canonical

abbrev pub KeepsAll :
    (deny_removed deny_changed : Bool) → (old new : BTreeMap InterfaceEntry) → Type 0
KeepsAll deny_removed deny_changed old new =
    (entry : String × InterfaceEntry)
    → In entry old
    → Keeps deny_removed deny_changed entry.1 (BTreeMap.get entry.0 new)

function_change-passes :
    (policy : Policy) (name : String) (old : InterfaceEntry) (new : Option InterfaceEntry)
    → PassesIff
        (function_change policy name old new)
        (Keeps policy.deny_removed_functions policy.deny_changed_functions old new)
unfolding error
function_change-passes policy name old none = record { iff = ground arith }
function_change-passes policy name old (some new) = record {
  iff = ground (arith, same_iff Value-discrete old.canonical new.canonical);
}

event_change-passes :
    (policy : Policy) (name : String) (old : InterfaceEntry) (new : Option InterfaceEntry)
    → PassesIff
        (event_change policy name old new)
        (Keeps policy.deny_removed_events policy.deny_changed_events old new)
unfolding error
event_change-passes policy name old none = record { iff = ground arith }
event_change-passes policy name old (some new) = record {
  iff = ground (arith, same_iff Value-discrete old.canonical new.canonical);
}

type_change-passes :
    (target : Artifact) (policy : Policy) (context : ValidationContext) (name : String)
    (old : InterfaceEntry) (new : Option InterfaceEntry)
    → PassesIff
        (type_change target policy context name old new)
        (Keeps policy.deny_changed_user_types policy.deny_changed_user_types old new)
unfolding error type_change
type_change-passes target policy context name old none = record { iff = ground arith }
type_change-passes target policy context name old (some new) = record {
  iff = ground (arith, same_iff Value-discrete old.canonical new.canonical);
}

-- For any artifacts, policy and context, the comparison pushes no error exactly where the target
-- keeps each function, event and type of the source: it is there if the policy denies removals of
-- its sort, and has the same canonical form if the policy denies changes of its sort and it is
-- there.
pub compare_interfaces-passes :
    (source target : Artifact) (policy : Policy) (context : ValidationContext)
    → PassesIff (compare_interfaces source target policy context) (
        KeepsAll policy.deny_removed_functions policy.deny_changed_functions source.functions
          target.functions
        × (KeepsAll policy.deny_removed_events policy.deny_changed_events source.events
              target.events
            × KeepsAll policy.deny_changed_user_types policy.deny_changed_user_types
                source.user_types target.user_types))
unfolding compare_interfaces
compare_interfaces-passes source target policy context =
    append_passes
      (each_passes
        (λ (name, old). function_change-passes policy name old (BTreeMap.get name target.functions))
        source.functions)
      (append_passes
        (each_passes
          (λ (name, old). event_change-passes policy name old (BTreeMap.get name target.events))
          source.events)
        (each_passes
          (λ (name, old).
            type_change-passes target policy context name old (BTreeMap.get name target.user_types))
          source.user_types))

-- The version of the target is a semantic version, and greater than the source's.
abbrev pub Increases : (x : External) → (from to : Option String) → Type 0
Increases x (some from) (some to) = Follows (x.parse_version from) (x.parse_version to)
  where
    Follows : Option x.Version → Option x.Version → Type 0
    Follows (some old) (some new) = x.compare_versions new old ≡ Ordering.gt
    Follows _ _ = ⊥
Increases x _ _ = ⊥

-- For any artifacts and policy, the test of the versions pushes no error exactly where the policy does
-- not require an increase, or both artifacts have a semantic version and the target's is greater.
pub check_versions-passes :
    (x : External) (source target : Artifact) (policy : Policy)
    → PassesIff
        (check_versions x source target policy)
        (policy.require_semver_increase ≡ true → Increases x (version source) (version target))
unfolding check_versions compare_version_texts version_order error
check_versions-passes x source target policy = record { iff = ground arith }
