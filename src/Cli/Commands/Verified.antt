-- ===== src/Cli/Commands/Verified.antt =====
-- When `verify-plan` succeeds.
use soroban_upgrades.Base.{
  ℕ, String, Bool, true, false, not, ◌≡◌, refl, ap, sym, subst, ◌∙◌, ◌↔◌, some, if◌then◌else◌,
}
use soroban_upgrades.Artifact.{Artifact, Artifact-discrete}
use soroban_upgrades.Policy.{Policy-discrete, ValidationContext}
use soroban_upgrades.Schema.{
  StorageSchema, SchemaHistory, StorageSchema-discrete, SchemaHistory-discrete,
}
use soroban_upgrades.Base.Result.{ok}
use soroban_upgrades.Plan.{review_ready, UpgradePlan}
use soroban_upgrades.Plan.Verify.{verify_plan_digest}
use soroban_upgrades.Cli.{
  Environment, load_artifact, load_schema, load_policy, load_schema_history, resolve_live_network,
  fetch_contract_artifact,
}
use soroban_upgrades.Cli.Anyhow.{
  Outcome, done, ◌>>=◌, ◌>>◌, bail_if, some_or, some_or_iff, from_core, from_core_iff, >>=_iff,
  >>_iff,
}
use soroban_upgrades.Cli.Guards.{
  DoneIff, ◌then◌, meaning, bind, unless_not, unless_same, unless_text, unless_holds,
  unless_all_same,
}
use soroban_upgrades.Cli.Commands.{
  artifact_matches, make_sure_plan_artifacts_match, make_sure_plan_declarations_match,
  make_sure_plan_network_matches, make_sure_current_contract_matches, verify_network_evidence,
  verify_loaded_plan, run_verify_plan, load_plan, optional_path, PlanStatus-discrete,
  OptionText-discrete, OptionNumber-discrete,
}

module _ (e : Environment) (p : UpgradePlan) where
  -- The WASM files that the plan names are the artifacts that it embeds, with the hashes it states.
  pub record HasArtifacts : Type 0 where
    pub source : load_artifact e (e.new_path p.inputs.source_wasm) ≡ done p.validation.source
    pub source_sha256 : p.validation.source.sha256 ≡ p.source_wasm_sha256
    pub target : load_artifact e (e.new_path p.inputs.target_wasm) ≡ done p.validation.target
    pub target_sha256 : p.validation.target.sha256 ≡ p.target_wasm_sha256

  -- The schemas, the history and the policy that the plan names are those that it embeds.
  pub record HasDeclarations : Type 0 where
    pub source_schema : StorageSchema
    pub has_source_schema : p.validation.source_schema ≡ some source_schema
    pub loads_source_schema : load_schema e (e.new_path p.inputs.source_schema) ≡ done source_schema
    pub target_schema : StorageSchema
    pub has_target_schema : p.validation.target_schema ≡ some target_schema
    pub loads_target_schema : load_schema e (e.new_path p.inputs.target_schema) ≡ done target_schema
    pub history : SchemaHistory
    pub has_history : p.validation.schema_history ≡ some history
    pub loads_history :
        load_schema_history e (some (e.new_path p.inputs.schema_history)) ≡ done (some history)
    pub policy : load_policy e (optional_path e p.inputs.policy) ≡ done p.validation.policy

  -- The network is the one that the plan was made for, and the contract still runs the source.
  pub record IsLive : Type 0 where
    pub is_ready : p.status ≡ review_ready
    pub current : ValidationContext
    pub resolves : resolve_live_network e p.network ≡ done current
    pub network_id : current.network_id ≡ p.validation.context.network_id
    pub network_passphrase : current.network_passphrase ≡ p.validation.context.network_passphrase
    pub protocol : current.target_protocol_version ≡ p.validation.context.target_protocol_version
    pub deployed : Artifact
    pub fetches : fetch_contract_artifact e p.network p.contract_id ≡ done deployed
    pub runs_source : deployed.sha256 ≡ p.source_wasm_sha256

  artifact_matches_iff :
      (label path hash : String) (expected : Artifact)
      → DoneIff
          (artifact_matches e label path hash expected)
          ((load_artifact e (e.new_path path) ≡ done expected) × (expected.sha256 ≡ hash))
  unfolding artifact_matches
  artifact_matches_iff label path hash expected =
      meaning
        (
          λ (a, l, (h, q)). (
            subst (λ z. load_artifact e (e.new_path path) ≡ done z) q l,
            subst (λ (z : Artifact). z.sha256 ≡ hash) q h,
          ),
          λ (l, h). (expected, l, (h, refl)),
        )
        (bind (load_artifact e (e.new_path path)) (λ artifact.
          unless_text artifact.sha256 hash _
          then unless_same Artifact-discrete artifact expected _))

  artifacts_iff : DoneIff (make_sure_plan_artifacts_match e p) HasArtifacts
  unfolding make_sure_plan_artifacts_match
  artifacts_iff =
      meaning
        (
          λ ((a, b), (c, d)). record {
            source = a;
            source_sha256 = b;
            target = c;
            target_sha256 = d;
          },
          λ r. ((r.source, r.source_sha256), (r.target, r.target_sha256)),
        )
        (artifact_matches_iff "source" p.inputs.source_wasm p.source_wasm_sha256 p.validation.source
          then artifact_matches_iff "target" p.inputs.target_wasm p.target_wasm_sha256
              p.validation.target)

  declarations_iff : DoneIff (make_sure_plan_declarations_match e p) HasDeclarations
  unfolding make_sure_plan_declarations_match
  declarations_iff =
      meaning
        (
          λ (s, ls, (t, lt, (o, lo, (h, lh, (policy, lp, (((a, b), c), d)))))). record {
            source_schema = s;
            has_source_schema = a;
            loads_source_schema = ls;
            target_schema = t;
            has_target_schema = b;
            loads_target_schema = lt;
            history = h;
            has_history = c;
            loads_history = lo ∙ ap done ((some_or_iff o _ h).0 lh);
            policy = lp ∙ ap done (sym d);
          },
          λ r. (
            r.source_schema,
            r.loads_source_schema,
            (
              r.target_schema,
              r.loads_target_schema,
              (
                some r.history,
                r.loads_history,
                (
                  r.history,
                  refl,
                  (
                    p.validation.policy,
                    r.policy,
                    (((r.has_source_schema, r.has_target_schema), r.has_history), refl),
                  ),
                ),
              ),
            ),
          ),
        )
        (bind (load_schema e (e.new_path p.inputs.source_schema)) (λ s.
          bind (load_schema e (e.new_path p.inputs.target_schema)) (λ t.
            bind (load_schema_history e (some (e.new_path p.inputs.schema_history))) (λ o.
              bind (some_or o _) (λ h.
                bind (load_policy e (optional_path e p.inputs.policy)) (λ policy.
                  unless_holds StorageSchema-discrete p.validation.source_schema s _
                  then unless_holds StorageSchema-discrete p.validation.target_schema t _
                  then unless_holds SchemaHistory-discrete p.validation.schema_history h _
                  then unless_same Policy-discrete p.validation.policy policy _))))))

  abbrev SameNetwork : ValidationContext → Type 0
  SameNetwork current =
      ((current.network_id ≡ p.validation.context.network_id)
        × (current.network_passphrase ≡ p.validation.context.network_passphrase))
      × (current.target_protocol_version ≡ p.validation.context.target_protocol_version)

  network_iff : DoneIff (make_sure_plan_network_matches e p) (
      (current : ValidationContext) × (resolve_live_network e p.network ≡ done current)
      × SameNetwork current)
  unfolding make_sure_plan_network_matches
  network_iff = bind (resolve_live_network e p.network) (λ current.
      unless_all_same OptionText-discrete OptionText-discrete OptionNumber-discrete
        current.network_id p.validation.context.network_id current.network_passphrase
        p.validation.context.network_passphrase current.target_protocol_version
        p.validation.context.target_protocol_version _)

  pub contract_iff :
      DoneIff (make_sure_current_contract_matches e p.network p.contract_id p.source_wasm_sha256) (
        (deployed : Artifact) × (fetch_contract_artifact e p.network p.contract_id ≡ done deployed)
        × (deployed.sha256 ≡ p.source_wasm_sha256))
  unfolding make_sure_current_contract_matches
  contract_iff =
      bind (fetch_contract_artifact e p.network p.contract_id)
        (λ deployed. unless_text deployed.sha256 p.source_wasm_sha256 _)

  live_iff : DoneIff (verify_network_evidence e p) IsLive
  unfolding verify_network_evidence
  live_iff =
      meaning
        (
          λ ((r, (c, l, ((a, b), d))), (q, f, h)). record {
            is_ready = r;
            current = c;
            resolves = l;
            network_id = a;
            network_passphrase = b;
            protocol = d;
            deployed = q;
            fetches = f;
            runs_source = h;
          },
          λ x. (
            (
              x.is_ready,
              (x.current, x.resolves, ((x.network_id, x.network_passphrase), x.protocol)),
            ),
            (x.deployed, x.fetches, x.runs_source),
          ),
        )
        (unless_same PlanStatus-discrete p.status review_ready _ then network_iff then contract_iff)

  network_evidence_iff :
      (offline : Bool)
      → DoneIff
          (if offline then done tt else verify_network_evidence e p)
          (offline ≡ false → IsLive)
  network_evidence_iff true = record { iff = (λ _ h. cc, λ _. refl) }
  network_evidence_iff false = meaning (λ live _. live, λ f. f refl) live_iff

  -- What `verify-plan` establishes of a plan.
  pub record IsVerified (offline : Bool) : Type 0 where
    pub is_valid : verify_plan_digest e.plans p ≡ ok true
    pub has_artifacts : HasArtifacts
    pub has_declarations : HasDeclarations
    pub is_live : offline ≡ false → IsLive

  digest_iff :
      DoneIff
        (from_core (verify_plan_digest e.plans p) >>= λ is_valid.
          bail_if (not is_valid) "upgrade plan digest mismatch")
        (verify_plan_digest e.plans p ≡ ok true)
  digest_iff =
      meaning
        (
          λ (b, h, q). (from_core_iff (verify_plan_digest e.plans p) true).0 (h ∙ ap done q),
          λ h. (true, (from_core_iff (verify_plan_digest e.plans p) true).1 h, refl),
        )
        (bind (from_core (verify_plan_digest e.plans p))
          (λ is_valid. unless_not is_valid _ (λ q. q, λ q. q)))

  verify_loaded_plan_iff :
      (offline : Bool) → DoneIff (verify_loaded_plan e p offline) (IsVerified offline)
  unfolding verify_loaded_plan
  verify_loaded_plan_iff offline =
      meaning
        (
          λ (((v, a), d), l). record {
            is_valid = v;
            has_artifacts = a;
            has_declarations = d;
            is_live = l;
          },
          λ r. (((r.is_valid, r.has_artifacts), r.has_declarations), r.is_live),
        )
        (digest_iff then artifacts_iff then declarations_iff then network_evidence_iff offline)

-- `verify-plan` ends with the exit code 0 exactly where the file holds a plan that is valid, the files
-- that it names hold the artifacts, the hashes and the declarations that it embeds, and, unless
-- offline, it is ready for review, the live network has its identity and protocol, and the contract
-- runs the source artifact.
pub run_verify_plan_iff :
    (e : Environment) (path : e.PathBuf) (offline : Bool)
    → (run_verify_plan e path offline ≡ done 0)
      ↔ ((p : UpgradePlan) × (load_plan e path ≡ done p) × IsVerified e p offline)
unfolding run_verify_plan
run_verify_plan_iff e path offline =
    let rest : UpgradePlan → Outcome ℕ = λ p. verify_loaded_plan e p offline >> done 0 in
    let (f, g) = >>=_iff (load_plan e path) rest 0 in
    (
      λ h.
          let (p, l, r) = f h in
          let (v, _) = (>>_iff (verify_loaded_plan e p offline) (done 0) 0).0 r in
          (p, l, (verify_loaded_plan_iff e p offline).iff.0 v),
      λ (p, l, v). g (
        p,
        l,
        (>>_iff (verify_loaded_plan e p offline) (done 0) 0).1
            ((verify_loaded_plan_iff e p offline).iff.1 v, refl),
      ),
    )
