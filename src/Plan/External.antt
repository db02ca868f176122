-- ===== src/Plan/External.antt =====
-- What plans call outside the repository: Stellar's key encoding (stellar_strkey) and the JSON
-- serialiser (serde_json), beside what the checks call.
use soroban_upgrades.Base.{ℕ, String, Bool, List}
use soroban_upgrades.Base.Result.{Result}
use soroban_upgrades.Json.Value.{Value}
use soroban_upgrades.Checks.External.{External}
use soroban_upgrades.Plan.{UpgradePlan}

pub record PlanExternal : Type 1 where
  pub checks : External
  -- `stellar_strkey::Contract::from_string(text).is_ok()`
  pub is_contract_id : String → Bool
  -- `Strkey::from_string` reads the bytes of an ASCII text as a private key.
  pub is_private_key : List ℕ → Bool
  pub plan_to_text : UpgradePlan → Result String
  pub plan_to_value : UpgradePlan → Result Value
  pub value_to_vec : Value → Result (List ℕ)
