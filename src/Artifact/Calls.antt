-- ===== src/Artifact/Calls.antt =====
-- `inspect_export_call_evidence` and `collect_export_call_evidence`: for each exported function, the
-- host imports that direct calls reach from it, and whether a body on the way dispatches dynamically.
mod Reach
mod Bound
pub mod Sound
pub mod Complete
pub mod Total
use soroban_upgrades.Base.{
  ℕ, zero, suc, ◌+◌, ◌-◌, String, Bool, true, false, ◌||◌, List, [], ◌∷◌, ◌++◌, length, get_elem?,
  Option, none, some, ltb, if◌then◌else◌,
}
use soroban_upgrades.Base.Result.{
  Error, call_graph, Result, ok, err, ◌>>=◌, ◌>>◌, fail_if, fold_result,
}
use soroban_upgrades.Base.Order.{nat_ord, string_ord}
use soroban_upgrades.Base.BTreeMap
use soroban_upgrades.Base.BTreeMap.{BTreeMap}
use soroban_upgrades.Base.BTreeSet
use soroban_upgrades.Base.BTreeSet.{BTreeSet}
use soroban_upgrades.Base.Text as Text
use soroban_upgrades.Artifact.{ExportCallEvidence}
use soroban_upgrades.Artifact.Wasm.{
  Bytes, Import, Export, Operator, call, return_call, call_indirect, return_call_indirect, call_ref,
  return_call_ref, other, Payload, import_section, export_section, code_section_entry, Crates,
  u32_max,
}

pub record FunctionBodyCalls : Type 0 where
  pub direct_calls : List ℕ
  pub has_dynamic_dispatch : Bool

-- The state of the worklist: `pending` with the last element first.
pub record Search : Type 0 where
  pub pending : List ℕ
  pub visited : BTreeSet ℕ
  pub evidence : ExportCallEvidence

-- The calls of all bodies.
abbrev pub total_calls : List FunctionBodyCalls → ℕ
total_calls [] = 0
total_calls (b ∷ bs) = length b.direct_calls + total_calls bs

-- The state of the worklist before its first round.
abbrev pub start : ℕ → Search
start function_index = record {
  pending = function_index ∷ [];
  visited = [];
  evidence = record { host_imports = []; dynamic_dispatch_reachable = false };
}

module _ (imports : List String) (bodies : List FunctionBodyCalls) where
  -- An index below the number of imports.
  visit_import : ℕ → Search → Result Search
  visit_import current s = elim (get_elem? imports current) [
    | none ↦ err (call_graph "function import index is out of range")
    | some name ↦ ok (record s {
      evidence = record s.evidence { host_imports = BTreeSet.insert name s.evidence.host_imports };
    })
  ]

  -- A body that was not visited before.
  visit_body : ℕ → Search → Result Search
  visit_body current s = elim (get_elem? bodies (current - length imports)) [
    | none ↦ err (call_graph "function body index is out of range")
    | some body ↦ ok (record {
      pending = body.direct_calls ++ s.pending;
      visited = BTreeSet.insert current s.visited;
      evidence = record s.evidence {
        dynamic_dispatch_reachable =
            s.evidence.dynamic_dispatch_reachable || body.has_dynamic_dispatch;
      };
    })
  ]

  -- One round of the loop, after `current` was popped.
  pub visit : ℕ → Search → Result Search
  unfolding visit_import visit_body
  visit current s =
      if ltb current (length imports)
      then visit_import current s
      else if BTreeSet.contains current s.visited
      then ok s
      else visit_body current s

  -- `while let Some(current) = pending.pop()`; `none` if the fuel runs out.
  pub loop : ℕ → Search → Option (Result ExportCallEvidence)
  loop zero s = elim s.pending [ [] ↦ some (ok s.evidence) | _ ∷ _ ↦ none ]
  loop (suc fuel) s = elim s.pending [
    | [] ↦ some (ok s.evidence)
    | current ∷ rest ↦ elim (visit current (record s { pending = rest })) [
      | err e ↦ some (err e)
      | ok t ↦ loop fuel t
    ]
  ]

  -- The fuel is one round for the entry and one for each call of each body. The case of `none` never
  -- arises (`Bound`).
  unfoldable pub collect_export_call_evidence : ℕ → Result ExportCallEvidence
  unfolding loop visit
  collect_export_call_evidence function_index =
      elim (loop (suc (total_calls bodies)) (start function_index)) [
        | none ↦ err (call_graph "unreachable")
        | some r ↦ r
      ]

-- What the payloads of a module say about its functions.
pub record Module : Type 0 where
  pub function_imports : List String
  pub function_exports : BTreeMap ℕ
  pub function_bodies : List FunctionBodyCalls

read_operator : FunctionBodyCalls → Result Operator → Result FunctionBodyCalls
read_operator calls (err e) = err e
read_operator calls (ok (call i)) =
    ok (record calls { direct_calls = calls.direct_calls ++ i ∷ [] })
read_operator calls (ok (return_call i)) =
    ok (record calls { direct_calls = calls.direct_calls ++ i ∷ [] })
read_operator calls (ok other) = ok calls
read_operator calls (ok _) = ok (record calls { has_dynamic_dispatch = true })

unfoldable pub read_body : Result (List (Result Operator)) → Result FunctionBodyCalls
unfolding read_operator
read_body body = do
  operators ← body
  fold_result read_operator (record { direct_calls = []; has_dynamic_dispatch = false }) operators

read_import : List String → Result Import → Result (List String)
read_import imports (err e) = err e
read_import imports (ok i) =
    ok (
      if i.is_func then imports ++ Text.◌++◌ i.module_name (Text.◌++◌ "." i.name) ∷ [] else imports)

read_export : BTreeMap ℕ → Result Export → Result (BTreeMap ℕ)
read_export exports (err e) = err e
read_export exports (ok x) =
    ok (if x.is_func then BTreeMap.insert x.name x.index exports else exports)

read_payload : Module → Result Payload → Result Module
unfolding read_import read_export
read_payload m (err e) = err e
read_payload m (ok (import_section section)) = do
  imports ← fold_result read_import m.function_imports section
  ok (record m { function_imports = imports })
read_payload m (ok (export_section section)) = do
  exports ← fold_result read_export m.function_exports section
  ok (record m { function_exports = exports })
read_payload m (ok (code_section_entry body)) = do
  calls ← read_body body
  ok (record m { function_bodies = m.function_bodies ++ calls ∷ [] })
read_payload m (ok _) = ok m

unfoldable pub read_module : List (Result Payload) → Result Module
unfolding read_payload
read_module payloads =
    fold_result read_payload
      (record { function_imports = []; function_exports = []; function_bodies = [] }) payloads

collect_export :
    Module → BTreeMap ExportCallEvidence → String × ℕ → Result (BTreeMap ExportCallEvidence)
collect_export m result (export, function_index) = do
  evidence ← collect_export_call_evidence m.function_imports m.function_bodies function_index
  ok (BTreeMap.insert export evidence result)

unfoldable pub inspect_export_call_evidence : Crates → Bytes → Result (BTreeMap ExportCallEvidence)
unfolding read_module collect_export
inspect_export_call_evidence c bytes = do
  m ← read_module (c.parse_all bytes)
  fail_if (ltb u32_max (length m.function_imports))
      (call_graph "too many function imports to inspect")
  fold_result (collect_export m) [] m.function_exports
