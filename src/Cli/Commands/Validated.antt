-- ===== src/Cli/Commands/Validated.antt =====
-- When `validate` exits with 0.
use soroban_upgrades.Base.{
  ℕ, Bool, true, false, String, ◌≡◌, refl, ◌↔◌, Option, some, if◌then◌else◌,
}
use soroban_upgrades.Policy.{ValidationContext}
use soroban_upgrades.Report.{ValidationReport}
use soroban_upgrades.Cli.{Environment, resolve_validation_context, load_report}
use soroban_upgrades.Cli.Anyhow.{Outcome, done, failed, ◌>>=◌}
use soroban_upgrades.Cli.Commands.{exit_code, run_validate}
use soroban_upgrades.Cli.Commands.Loaded.{IsLoaded, load_report-eq-done, load_report-IsLoaded}

exit_code_bind :
    {A : Type 0} (m : Outcome A) (rest : A → Outcome ℕ)
    → (exit_code (m >>= rest) ≡ 0) ↔ ((a : A) × (m ≡ done a) × (exit_code (rest a) ≡ 0))
exit_code_bind (done a) rest = (λ h. (a, refl, h), λ (b, e, h). cc)
exit_code_bind (failed e) rest = (λ h. cc, λ (b, q, h). cc)

safe_code : (safe : Bool) → (exit_code (done (if safe then 0 else 2)) ≡ 0) ↔ (safe ≡ true)
safe_code true = (λ _. refl, λ _. refl)
safe_code false = (λ h. cc, λ h. cc)

-- `validate` exits with 0 exactly where the network context is resolved, both artifacts, both schemas,
-- the history and the policy are read, and the report of their validation is safe.
pub exit_code-run_validate :
    (e : Environment) (from to from_schema to_schema : e.PathBuf) (policy : Option e.PathBuf)
    (network : Option String) (protocol_version : Option ℕ) (schema_history : e.PathBuf)
    → (exit_code (
          run_validate e from to from_schema to_schema policy network protocol_version
            schema_history)
        ≡ 0)
      ↔ ((context : ValidationContext) × (resolve_validation_context e network protocol_version
            ≡ done context)
          × ((report : ValidationReport) × IsLoaded e from to from_schema to_schema policy context
                schema_history report
              × (report.safe ≡ true)))
unfolding run_validate
exit_code-run_validate e from to from_schema to_schema policy network protocol_version
      schema_history =
    let loading : ValidationContext → Outcome ValidationReport = λ context.
      load_report e from to (some from_schema) (some to_schema) policy context
        (some schema_history) in
    let answer : ValidationReport → Outcome ℕ = λ report. done (if report.safe then 0 else 2) in
    let (f, g) =
      exit_code_bind (resolve_validation_context e network protocol_version)
        (λ context. loading context >>= answer) in
    (
      λ h.
          let (context, resolved, h') = f h in
          let (report, loaded, code) = (exit_code_bind (loading context) answer).0 h' in
          (
            context,
            resolved,
            (
              report,
              load_report-eq-done e from to from_schema to_schema policy context schema_history
                  report loaded,
              (safe_code report.safe).0 code,
            ),
          ),
      λ (context, resolved, (report, loaded, safe)). g (
        context,
        resolved,
        (exit_code_bind (loading context) answer).1 (
          report,
          load_report-IsLoaded e from to from_schema to_schema policy context schema_history report
              loaded,
          (safe_code report.safe).1 safe,
        ),
      ),
    )
