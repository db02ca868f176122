-- ===== src/Checks/External.antt =====
-- What the checks call outside the repository: semantic versions (semver), JSON text (serde_json),
-- SHA-256 (sha2, hex), and the crate's own version, which the build fixes.
use soroban_upgrades.Base.{ℕ, String, Option, Ordering, List, unwrap_or}
use soroban_upgrades.Json.Value.{Value}
use soroban_upgrades.Policy.{Policy}
use soroban_upgrades.Schema.{StorageSchema}
use mathlib.Core.Option

pub record External : Type 1 where
  pub Version : Type 0
  pub parse_version : String → Option Version
  pub compare_versions : Version → Version → Ordering
  pub show_version : Version → String
  pub value_to_text : Value → Option String
  pub policy_to_vec : Policy → Option (List ℕ)
  pub schema_to_vec : StorageSchema → Option (List ℕ)
  pub sha256_hex : List ℕ → String
  pub tool_version : String

module _ (x : External) where
  -- `canonical_sha256`: the empty text where the value cannot be serialised.
  unfoldable pub canonical_sha256 : {T : Type 0} → (T → Option (List ℕ)) → T → String
  canonical_sha256 to_vec value = unwrap_or (Option.map x.sha256_hex (to_vec value)) ""

  unfoldable pub display_json : Value → String
  display_json value = unwrap_or (x.value_to_text value) "<invalid type>"
