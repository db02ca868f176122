-- ===== src/Cli/Commands/Loaded.antt =====
-- What `load_report` reads and validates.
use soroban_upgrades.Base.{◌≡◌, ap, sym, ◌∙◌, Option, some}
use soroban_upgrades.Artifact.{Artifact}
use soroban_upgrades.Policy.{Policy, ValidationContext}
use soroban_upgrades.Schema.{StorageSchema, SchemaHistory}
use soroban_upgrades.Report.{ValidationReport}
use soroban_upgrades.Validation.{validate_with_history}
use soroban_upgrades.Cli.{
  Environment, load_artifact, load_schema, load_optional_schema, load_policy, load_schema_history,
  load_report, read_bounded, max_json_input_size_bytes,
}
use soroban_upgrades.Cli.Anyhow.{done, >>=_iff, done_inj}

module _ (e : Environment) where
  -- What a report of `load_report` is made from.
  pub record IsLoaded (from to from_schema to_schema : e.PathBuf) (policy : Option e.PathBuf)
      (context : ValidationContext) (schema_history : e.PathBuf) (report : ValidationReport)
      : Type 0 where
    pub source : Artifact
    pub loads_source : load_artifact e from ≡ done source
    pub target : Artifact
    pub loads_target : load_artifact e to ≡ done target
    pub old_schema : StorageSchema
    pub loads_old : load_schema e from_schema ≡ done old_schema
    pub new_schema : StorageSchema
    pub loads_new : load_schema e to_schema ≡ done new_schema
    pub rules : Policy
    pub loads_rules : load_policy e policy ≡ done rules
    pub history : SchemaHistory
    pub loads_history : load_schema_history e (some schema_history) ≡ done (some history)
    pub is_validated :
        report
        ≡ validate_with_history e.plans.checks source target
            (some old_schema)
            (some new_schema)
            rules
            context
            (some history)

  optional_schema-eq-done :
      (path : e.PathBuf) (o : Option StorageSchema)
      → load_optional_schema e (some path) ≡ done o
      → (s : StorageSchema) × (load_schema e path ≡ done s) × (o ≡ some s)
  optional_schema-eq-done path o h =
      let (s, l, q) = (>>=_iff (load_schema e path) (λ s. done (some s)) o).0 h in
      (s, l, sym (done_inj q))

  history-eq-done :
      (path : e.PathBuf) (o : Option SchemaHistory)
      → load_schema_history e (some path) ≡ done o
      → (h : SchemaHistory) × (o ≡ some h)
  unfolding load_schema_history
  history-eq-done path o h =
      let (bytes, l, q) =
        (>>=_iff (read_bounded e path max_json_input_size_bytes "JSON schema history") _ o).0 h in
      let (x, l', q') = (>>=_iff _ (λ x. done (some x)) o).0 q in (x, sym (done_inj q'))

  pub load_report-eq-done :
      (from to from_schema to_schema : e.PathBuf) (policy : Option e.PathBuf)
      (context : ValidationContext) (schema_history : e.PathBuf) (report : ValidationReport)
      → load_report e from to
          (some from_schema)
          (some to_schema)
          policy
          context
          (some schema_history)
        ≡ done report
      → IsLoaded from to from_schema to_schema policy context schema_history report
  unfolding load_report
  load_report-eq-done from to from_schema to_schema policy context schema_history report h =
      let (source, l0, h0) = (>>=_iff (load_artifact e from) _ report).0 h in
      let (target, l1, h1) = (>>=_iff (load_artifact e to) _ report).0 h0 in
      let (old, l2, h2) = (>>=_iff (load_optional_schema e (some from_schema)) _ report).0 h1 in
      let (new, l3, h3) = (>>=_iff (load_optional_schema e (some to_schema)) _ report).0 h2 in
      let (rules, l4, h4) = (>>=_iff (load_policy e policy) _ report).0 h3 in
      let (o, l5, h5) = (>>=_iff (load_schema_history e (some schema_history)) _ report).0 h4 in
      let (s, m2, q2) = optional_schema-eq-done from_schema old l2 in
      let (t, m3, q3) = optional_schema-eq-done to_schema new l3 in
      let (history, q5) = history-eq-done schema_history o l5 in
      record {
        source = source;
        loads_source = l0;
        target = target;
        loads_target = l1;
        old_schema = s;
        loads_old = m2;
        new_schema = t;
        loads_new = m3;
        rules = rules;
        loads_rules = l4;
        history = history;
        loads_history = l5 ∙ ap done q5;
        is_validated = sym (done_inj h5) ∙ (λ i.
            validate_with_history e.plans.checks source target (q2 i) (q3 i) rules context (q5 i));
      }

  pub load_report-IsLoaded :
      (from to from_schema to_schema : e.PathBuf) (policy : Option e.PathBuf)
      (context : ValidationContext) (schema_history : e.PathBuf) (report : ValidationReport)
      → IsLoaded from to from_schema to_schema policy context schema_history report
      → load_report e from to
          (some from_schema)
          (some to_schema)
          policy
          context
          (some schema_history)
        ≡ done report
  unfolding load_report
  load_report-IsLoaded from to from_schema to_schema policy context schema_history report l =
      rw l.loads_source (
        rw l.loads_target (
          rw l.loads_old (
            rw l.loads_new (rw l.loads_rules (rw l.loads_history (ap done (sym l.is_validated)))))))
