-- ===== src/Validation/Verdict.antt =====
-- What a report says of its findings: the verdict, and the order of the list.
use soroban_upgrades.Base.{
  String, Bool, true, not, ◌&&◌, ◌≡◌, ◌≢◌, refl, sym, ap, ◌∙◌, ◌⊎◌, inl, inr, List, [], ◌∷◌, All,
  Option, any, filter, same, same_iff, str_eq, eq_iff, Ordering, arith,
}
use Prim.Native.String.{compare}
use soroban_upgrades.Base.Order.{Ord, then_cmp, string_ord, pair_ord}
use soroban_upgrades.Base.Sort
use soroban_upgrades.Artifact.{Artifact}
use soroban_upgrades.Policy.{Policy, ValidationContext}
use soroban_upgrades.Schema.{StorageSchema, SchemaHistory}
use soroban_upgrades.Report.{
  Severity, info_severity, warning_severity, error_severity, severity_rank, ValidationReport,
  Finding, finding_cmp, is_error, severity_ord,
}
use soroban_upgrades.Checks.External.{External}
use soroban_upgrades.Validation.{all_findings, validate_with_history}
use mathlib.Core.List.{Perm}

not_lt_trans :
    {A : Type 0} (o : Ord A) (a b c : A)
    → o.cmp b a ≢ Ordering.lt
    → o.cmp c b ≢ Ordering.lt
    → o.cmp c a ≢ Ordering.lt
not_lt_trans o a b c h k lt = go (o.cmp b a) refl
  where
    go : (r : Ordering) → o.cmp b a ≡ r → ⊥
    go Ordering.lt e = h e
    go Ordering.eq e = k (cc (o.eq_of_cmp b a e))
    go Ordering.gt e = k (o.cmp_trans c a b lt (cc (o.cmp_swap b a)))

abbrev finding_key : Finding → Severity × String
finding_key f = (f.severity, f.code)

abbrev key_ord : Ord (Severity × String)
key_ord = pair_ord

finding_cmp_lem : (f g : Finding) → finding_cmp f g ≡ key_ord.cmp (finding_key f) (finding_key g)
unfolding finding_cmp
finding_cmp_lem f g = refl

-- One severity is lower than another.
abbrev pub IsBelow : Severity → Severity → Type 0
IsBelow info_severity warning_severity = Unit
IsBelow info_severity error_severity = Unit
IsBelow warning_severity error_severity = Unit
IsBelow _ _ = ⊥

-- A finding may stand before another: its severity is lower, or the same and its code not greater.
abbrev pub MayPrecede : Finding → Finding → Type 0
MayPrecede f g =
    IsBelow f.severity g.severity
    ⊎ ((f.severity ≡ g.severity) × (compare f.code g.code ≢ Ordering.gt))

abbrev pub IsInOrder : List Finding → Type 0
IsInOrder [] = Unit
IsInOrder (f ∷ fs) = All (MayPrecede f) fs × IsInOrder fs

severity_cases :
    (s t : Severity) (o : Ordering)
    → then_cmp (severity_ord.cmp t s) o ≢ Ordering.lt
    → IsBelow s t ⊎ ((s ≡ t) × (o ≢ Ordering.lt))
unfolding severity_ord severity_rank
severity_cases info_severity info_severity o h = inr (refl, h)
severity_cases info_severity warning_severity o h = inl tt
severity_cases info_severity error_severity o h = inl tt
severity_cases warning_severity info_severity o h = absurd (h refl)
severity_cases warning_severity warning_severity o h = inr (refl, h)
severity_cases warning_severity error_severity o h = inl tt
severity_cases error_severity info_severity o h = absurd (h refl)
severity_cases error_severity warning_severity o h = absurd (h refl)
severity_cases error_severity error_severity o h = inr (refl, h)

finding_cmp-MayPrecede : (f g : Finding) → finding_cmp g f ≢ Ordering.lt → MayPrecede f g
unfolding finding_cmp
finding_cmp-MayPrecede f g h =
    elim (severity_cases f.severity g.severity (compare g.code f.code) h) [
      | inl below ↦ inl below
      | inr (same, code) ↦ inr (same, λ gt. code (cc (string_ord.cmp_swap f.code g.code)))
    ]

All-map :
    {A : Type 0} {P Q : A → Type 0} → ((a : A) → P a → Q a) → (xs : List A) → All P xs → All Q xs
All-map f [] h = tt
All-map f (x ∷ xs) (h, k) = (f x h, All-map f xs k)

sorted-IsInOrder : (fs : List Finding) → Sort.IsSorted finding_cmp fs → IsInOrder fs
sorted-IsInOrder [] h = tt
sorted-IsInOrder (f ∷ fs) (h, k) = (All-map (finding_cmp-MayPrecede f) fs h, sorted-IsInOrder fs k)

pub Severity-discrete : Discrete Severity
Severity-discrete = hlevel

abbrev pub has_label : Severity → String → Finding → Bool
has_label severity code f = same Severity-discrete f.severity severity && str_eq f.code code

-- The findings of one severity and one code.
abbrev pub with_label : Severity → String → List Finding → List Finding
with_label severity code findings = filter (has_label severity code) findings

has_label-key :
    (severity : Severity) (code : String) (f : Finding)
    → has_label severity code f ≡ true
    → finding_key f ≡ (severity, code)
has_label-key severity code f h =
    let s = (same_iff Severity-discrete f.severity severity).0 (ground arith) in
    let c = (eq_iff f.code code).0 (ground arith) in λ i. (s i, c i)

-- Findings of one label are equal to the sort.
finding_cmp-label :
    (severity : Severity) (code : String) (f g : Finding)
    → has_label severity code f ≡ true
    → has_label severity code g ≡ true
    → finding_cmp f g ≢ Ordering.gt
finding_cmp-label severity code f g h k gt =
    let e = has_label-key severity code f h ∙ sym (has_label-key severity code g k) in
    let q = ap (key_ord.cmp (finding_key f)) (sym e) in
    eq_gt (sym (key_ord.cmp_refl (finding_key f)) ∙ (sym q ∙ (sym (finding_cmp_lem f g) ∙ gt)))
  where
    eq_gt : Ordering.eq ≡ Ordering.gt → ⊥
    eq_gt h = cc

module _ (x : External) (source target : Artifact)
    (source_schema target_schema : Option StorageSchema) (policy : Policy)
    (context : ValidationContext) (history : Option SchemaHistory) where
  abbrev pub report : ValidationReport
  report = validate_with_history x source target source_schema target_schema policy context history

  abbrev pub pushed : List Finding
  pushed = all_findings x source target source_schema target_schema policy context history

  pub safe_lem : report.safe ≡ not (any is_error pushed)
  unfolding validate_with_history
  safe_lem = ap not (Sort.any-sort_by finding_cmp is_error pushed)

  with_label-sort_by :
      (severity : Severity) (code : String)
      → with_label severity code (Sort.sort_by finding_cmp pushed) ≡ with_label severity code pushed
  with_label-sort_by severity code =
      Sort.filter-sort_by finding_cmp (has_label severity code) (finding_cmp-label severity code)
        pushed

  -- Whatever the inputs, the findings of the report are what the checks push, rearranged: information
  -- first, then warnings, then errors, those of one severity by ascending code, and those of one
  -- severity and one code in the order in which they were pushed.
  pub findings_lem :
      (Perm report.findings pushed × IsInOrder report.findings)
      × ((severity : Severity) (code : String)
          → with_label severity code report.findings ≡ with_label severity code pushed)
  unfolding validate_with_history finding_cmp severity_ord
  findings_lem = (
    (
      Sort.sort_by-perm finding_cmp pushed,
      sorted-IsInOrder (Sort.sort_by finding_cmp pushed) (
          Sort.sort_by-IsSorted finding_cmp
            (λ f g. key_ord.cmp_swap (finding_key f) (finding_key g))
            (λ f g h. not_lt_trans key_ord (finding_key f) (finding_key g) (finding_key h)) pushed),
    ),
    with_label-sort_by,
  )
