-- ===== src/Plan/Create/Steps.antt =====
-- The steps of a plan: their order and their positions.
use soroban_upgrades.Base.{
  ℕ, zero, suc, ◌+◌, String, Bool, ◌≡◌, refl, Option, none, some, is_some, List, [], ◌∷◌, ◌++◌, map,
  length, if◌then◌else◌,
}
use soroban_upgrades.Report.{ValidationReport}
use soroban_upgrades.Plan.{
  PlanStepKind, verify_current_executable, upload_target_wasm, simulate_upgrade, execute_upgrade,
  execute_migration, verify_executable, verify_invariants, PlanStep, PlanOperations, MigrationCall,
  InvariantCheck,
}
use soroban_upgrades.Plan.Create.{plan_steps}

-- `start, start + 1, …`
abbrev pub count_from : ℕ → ℕ → List ℕ
count_from start zero = []
count_from start (suc n) = start ∷ count_from (start + 1) n

-- The order of a release: the code on the network is checked, the target is uploaded and simulated,
-- then executed; a migration, where there is one, follows; then both verifications.
abbrev pub release_order : (has_migration : Bool) → List PlanStepKind
release_order has_migration =
    (verify_current_executable ∷ upload_target_wasm ∷ simulate_upgrade ∷ execute_upgrade ∷ [])
    ++ ((if has_migration then execute_migration ∷ [] else [])
        ++ (verify_executable ∷ verify_invariants ∷ []))

module _ (report : ValidationReport)
    (network contract_id source_identity target_wasm : String) where
  abbrev steps_of : Option MigrationCall → InvariantCheck → List PlanStep
  steps_of migration check =
      plan_steps report network contract_id source_identity target_wasm
        (record { migration = migration; invariant_check = check })

  order_of :
      (migration : Option MigrationCall) (check : InvariantCheck)
      → (map (λ s. s.kind) (steps_of migration check) ≡ release_order (is_some migration))
        × (map (λ s. s.position) (steps_of migration check)
            ≡ count_from 1 (length (steps_of migration check)))
  unfolding plan_steps
  order_of none check = (refl, refl)
  order_of (some call) check = (refl, refl)

  -- For all arguments, the steps come in the release order, with the migration exactly where one is
  -- selected, and are numbered 1, 2, … without a gap.
  pub plan_steps-order :
      (operations : PlanOperations)
      → (map
            (λ s. s.kind)
            (plan_steps report network contract_id source_identity target_wasm operations)
          ≡ release_order (is_some operations.migration))
        × (map
              (λ s. s.position)
              (plan_steps report network contract_id source_identity target_wasm operations)
            ≡ count_from 1 (
                length
                  (plan_steps report network contract_id source_identity target_wasm operations)))
  plan_steps-order operations = order_of operations.migration operations.invariant_check
