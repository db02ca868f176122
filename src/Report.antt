-- ===== src/Report.antt =====
-- `Finding`, the evidence labels, `PublicImpact` and `ValidationReport` of
-- crates/soroban-upgrades-core/src/lib.rs.
pub mod Passes
use native.Mathlib.Decide.{ℕ_discrete}
use soroban_upgrades.Base.{
  ℕ, String, ◌≡◌, any, Bool, true, false, List, Option, Ordering, String-discrete, arith,
}
use soroban_upgrades.Base.Order.{Ord, ord_by, then_cmp, nat_ord, string_ord, pair_ord, list_ord}
use soroban_upgrades.Artifact.{Artifact, Artifact-discrete, PublicTypeBoundary, boundary_ord}
use soroban_upgrades.Policy.{Policy, ValidationContext, Policy-discrete, ValidationContext-discrete}
use soroban_upgrades.Schema.{
  StorageSchema, SchemaHistory, StorageSchema-discrete, SchemaHistory-discrete,
}

pub data Severity : Type 0 where
  info_severity warning_severity error_severity : Severity

pub record Finding : Type 0 where
  pub code : String
  pub severity : Severity
  pub title : String
  pub detail : String
  pub remediation : String

unfoldable pub error : (code title detail remediation : String) → Finding
error code title detail remediation = record {
  code = code;
  severity = error_severity;
  title = title;
  detail = detail;
  remediation = remediation;
}

unfoldable pub warning : (code title detail remediation : String) → Finding
warning code title detail remediation = record {
  code = code;
  severity = warning_severity;
  title = title;
  detail = detail;
  remediation = remediation;
}

unfoldable pub info : (code title detail remediation : String) → Finding
info code title detail remediation = record {
  code = code;
  severity = info_severity;
  title = title;
  detail = detail;
  remediation = remediation;
}

pub data EvidenceStatus : Type 0 where
  fact inference unknown : EvidenceStatus

pub record EvidenceItem : Type 0 where
  pub status : EvidenceStatus
  pub claim : String
  pub basis : String
  pub limitation : Option String

pub record EvidenceCoverage : Type 0 where
  pub compiled_contract_spec : EvidenceItem
  pub artifact_host_imports : EvidenceItem
  pub target_network_protocol : EvidenceItem
  pub declared_storage_schema : EvidenceItem
  pub declared_schema_history : EvidenceItem
  pub ledger_storage_coverage : EvidenceItem
  pub deployed_caller_graph : EvidenceItem
  pub cap0086_per_type_reader_binding : EvidenceItem
  pub migration_completion : EvidenceItem

pub record ImpactStep : Type 0 where
  pub owner_type : String
  pub member : String
  pub target_type : String

pub record PublicImpact : Type 0 where
  pub changed_type : String
  pub boundary : PublicTypeBoundary
  pub steps : List ImpactStep
  pub structural_reachability : EvidenceStatus
  pub runtime_compatibility : EvidenceStatus

pub record ValidationReport : Type 0 where
  pub format_version : ℕ
  pub tool_version : String
  pub safe : Bool
  pub policy : Policy
  pub context : ValidationContext
  pub source : Artifact
  pub target : Artifact
  pub findings : List Finding
  pub public_impacts : List PublicImpact
  pub evidence : EvidenceCoverage
  pub storage_schema_checked : Bool
  pub schema_history_checked : Bool
  pub policy_sha256 : String
  pub source_schema_sha256 : Option String
  pub target_schema_sha256 : Option String
  pub schema_history_sha256 : Option String
  pub source_schema : Option StorageSchema
  pub target_schema : Option StorageSchema
  pub schema_history : Option SchemaHistory

-- The derived orders.
unfoldable pub severity_rank : Severity → ℕ
severity_rank info_severity = 0
severity_rank warning_severity = 1
severity_rank error_severity = 2

pub severity_rank_inj : (a b : Severity) → severity_rank a ≡ severity_rank b → a ≡ b
unfolding severity_rank
severity_rank_inj a b h = ground arith

instance unfoldable pub severity_ord : Ord Severity
unfolding severity_rank
severity_ord = ord_by severity_rank severity_rank_inj

unfoldable pub status_rank : EvidenceStatus → ℕ
status_rank fact = 0
status_rank inference = 1
status_rank unknown = 2

pub status_rank_inj : (a b : EvidenceStatus) → status_rank a ≡ status_rank b → a ≡ b
unfolding status_rank
status_rank_inj a b h = ground arith

instance unfoldable pub status_ord : Ord EvidenceStatus
status_ord = ord_by status_rank status_rank_inj

abbrev pub step_key : ImpactStep → String × (String × String)
step_key s = (s.owner_type, (s.member, s.target_type))

pub step_key_inj : (a b : ImpactStep) → step_key a ≡ step_key b → a ≡ b
step_key_inj a b p =
    λ i. record { owner_type = (p i).0; member = (p i).1.0; target_type = (p i).1.1 }

instance unfoldable pub step_ord : Ord ImpactStep
step_ord = ord_by step_key step_key_inj

abbrev pub impact_key :
    PublicImpact
    → String × (PublicTypeBoundary × (List ImpactStep × (EvidenceStatus × EvidenceStatus)))
impact_key p =
    (p.changed_type, (p.boundary, (p.steps, (p.structural_reachability, p.runtime_compatibility))))

pub impact_key_inj : (a b : PublicImpact) → impact_key a ≡ impact_key b → a ≡ b
impact_key_inj a b p = λ i. record {
  changed_type = (p i).0;
  boundary = (p i).1.0;
  steps = (p i).1.1.0;
  structural_reachability = (p i).1.1.1.0;
  runtime_compatibility = (p i).1.1.1.1;
}

instance unfoldable pub impact_ord : Ord PublicImpact
impact_ord = ord_by impact_key impact_key_inj

-- `a.severity.cmp(&b.severity).then(a.code.cmp(&b.code))`
unfoldable pub finding_cmp : Finding → Finding → Ordering
unfolding severity_ord
finding_cmp a b = then_cmp (severity_ord.cmp a.severity b.severity) (string_ord.cmp a.code b.code)

-- `f.severity == Severity::Error`
abbrev pub is_error_severity : Severity → Bool
is_error_severity error_severity = true
is_error_severity _ = false

abbrev pub is_error : Finding → Bool
is_error f = is_error_severity f.severity

-- `findings.iter().any(|f| f.severity == Severity::Error)`
abbrev pub blocks : List Finding → Bool
blocks findings = any is_error findings

unfoldable pub ValidationReport-discrete : Discrete ValidationReport
unfolding String-discrete ℕ_discrete Artifact-discrete Policy-discrete ValidationContext-discrete
    StorageSchema-discrete SchemaHistory-discrete
ValidationReport-discrete = hlevel (
  ℕ_discrete, String-discrete, Artifact-discrete, Policy-discrete, ValidationContext-discrete,
  StorageSchema-discrete, SchemaHistory-discrete,
)
