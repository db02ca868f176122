-- ===== src/Plan/Guards/Calls.antt =====
-- Which texts and calls the guards let through.
use soroban_upgrades.Base.{
  String, Bool, true, false, not, ◌≡◌, refl, sym, ◌↔◌, Option, none, some, List, [], ◌∷◌, In, arith,
  subst,
}
use soroban_upgrades.Base.Order.{string_ord}
use soroban_upgrades.Base.BTreeMap
use soroban_upgrades.Base.BTreeMap.{BTreeMap}
use soroban_upgrades.Base.BTreeSet
use soroban_upgrades.Base.Result.{Error, Result, ok, err, ◌>>=◌, ok_or, collect}
use soroban_upgrades.Base.Guards.{◌then◌, unless, meaning, each, bind}
use soroban_upgrades.Json.Value.{Value}
use soroban_upgrades.Artifact.{Artifact, InterfaceEntry}
use soroban_upgrades.Plan.External.{PlanExternal}
use soroban_upgrades.Plan.Secret.{contains_stellar_private_key}
use soroban_upgrades.Plan.Guards.{validate_call_arguments, function_inputs, input_name, same_names}
use soroban_upgrades.Plan.Create.Ready.{same_names_iff}

-- Each declared input of a function has a name, and these are the names.
abbrev pub AreNamed : List Value → List String → Type 0
AreNamed [] [] = Unit
AreNamed (input ∷ inputs) (name ∷ names) = (input_name input ≡ some name) × AreNamed inputs names
AreNamed _ _ = ⊥

-- A call of an entrypoint supplies exactly the declared inputs, in whatever order they are declared.
pub record IsCallOf (x : PlanExternal) (target : Artifact) (entrypoint : String)
    (arguments : BTreeMap String) : Type 0 where
  pub function : InterfaceEntry
  pub is_exported : BTreeMap.get entrypoint target.functions ≡ some function
  pub inputs : List Value
  pub has_inputs : function_inputs function ≡ some inputs
  pub names : List String
  pub are_named : AreNamed inputs names
  pub supplies : (name : String) → In name names ↔ In name (BTreeMap.keys arguments)
  pub no_key :
      (value : String)
      → In value (BTreeMap.values arguments)
      → contains_stellar_private_key x value ≡ false

collected_iff :
    (e : Error) (o : Option String) (r : Result (List String)) (n : String) (names : List String)
    → ((ok_or o e >>= λ b. r >>= λ bs. ok (b ∷ bs)) ≡ ok (n ∷ names))
      ↔ ((o ≡ some n) × (r ≡ ok names))
collected_iff e none r n names = ground arith
collected_iff e (some b) (ok bs) n names = ground arith
collected_iff e (some b) (err f) n names = ground arith

collected_nonempty :
    (e : Error) (o : Option String) (r : Result (List String))
    → (ok_or o e >>= λ b. r >>= λ bs. ok (b ∷ bs)) ≡ ok []
    → ⊥
collected_nonempty e none r h = absurd (ground arith)
collected_nonempty e (some b) (ok bs) h = absurd (ground arith)
collected_nonempty e (some b) (err f) h = absurd (ground arith)

named_iff :
    (e : Error) (inputs : List Value) (names : List String)
    → (collect (λ input. ok_or (input_name input) e) inputs ≡ ok names) ↔ AreNamed inputs names
named_iff e [] [] = ground arith
named_iff e [] (n ∷ names) = ground arith
named_iff e (i ∷ inputs) [] = (
  collected_nonempty e (input_name i) (collect (λ input. ok_or (input_name input) e) inputs),
  λ h. absurd h,
)
named_iff e (i ∷ inputs) (n ∷ names) =
    let (f, g) =
      collected_iff e (input_name i) (collect (λ input. ok_or (input_name input) e) inputs) n
        names in
    let (h, k) = named_iff e inputs names in
    (λ r. let (a, b) = f r in (a, h b), λ (a, b). g (a, k b))

same_sets :
    (a b : List String)
    → (BTreeSet.collect a ≡ BTreeSet.collect b) ↔ ((s : String) → In s a ↔ In s b)
same_sets a b = (
  λ e s. (
    λ m. (BTreeSet.In-collect s b).0 (subst (In s) e ((BTreeSet.In-collect s a).1 m)),
    λ m. (BTreeSet.In-collect s a).0 (subst (In s) (sym e) ((BTreeSet.In-collect s b).1 m)),
  ),
  λ h.
      BTreeSet.eq_of_same_members (BTreeSet.collect a) (BTreeSet.collect b)
        (BTreeSet.collect-IsSorted a) (BTreeSet.collect-IsSorted b)
        (λ s. (
          λ m. (BTreeSet.In-collect s b).1 ((h s).0 ((BTreeSet.In-collect s a).0 m)),
          λ m. (BTreeSet.In-collect s a).1 ((h s).1 ((BTreeSet.In-collect s b).0 m)),
        )),
)

ok_or-eq-ok : {A : Type 0} (o : Option A) (e : Error) (a : A) → ok_or o e ≡ ok a → o ≡ some a
ok_or-eq-ok none e a h = cc
ok_or-eq-ok (some b) e a h = cc

ok_or-some : {A : Type 0} (o : Option A) (e : Error) (a : A) → o ≡ some a → ok_or o e ≡ ok a
ok_or-some o e a h = rw h refl

not-false_iff : {P : Type 0} (b : Bool) → (b ≡ true) ↔ P → (not b ≡ false) ↔ P
not-false_iff b p = ground arith

-- For every call, the test succeeds exactly where the entrypoint is exported, all its inputs have
-- names, the arguments are for exactly these, and no value has a private key in it.
pub validate_call_arguments_iff :
    (x : PlanExternal) (target : Artifact) (entrypoint : String) (arguments : BTreeMap String)
    (call_kind : String)
    → (validate_call_arguments x target entrypoint arguments call_kind ≡ ok tt)
      ↔ IsCallOf x target entrypoint arguments
unfolding validate_call_arguments
validate_call_arguments_iff x target entrypoint arguments call_kind =
    let tests = bind (ok_or (BTreeMap.get entrypoint target.functions) _) (λ function.
      bind (ok_or (function_inputs function) _) (λ inputs.
        bind (collect (λ input. ok_or (input_name input) _) inputs) (λ names.
          meaning
            (not-false_iff
              (same_names (BTreeSet.collect names) (BTreeSet.collect (BTreeMap.keys arguments)))
              (same_names_iff (BTreeSet.collect names)
                (BTreeSet.collect (BTreeMap.keys arguments))))
            (unless
              (not
                (same_names (BTreeSet.collect names) (BTreeSet.collect (BTreeMap.keys arguments))))
              _)
          then each (λ value. unless (contains_stellar_private_key x value) _)
              (BTreeMap.values arguments)))) in
    (
      λ h.
          let (f, ef, (is, ei, (ns, en, (same, keys)))) = tests.iff.0 h in
          record {
            function = f;
            is_exported = ok_or-eq-ok _ _ f ef;
            inputs = is;
            has_inputs = ok_or-eq-ok _ _ is ei;
            names = ns;
            are_named = (named_iff _ is ns).0 en;
            supplies = (same_sets ns (BTreeMap.keys arguments)).0 same;
            no_key = keys;
          },
      λ c. tests.iff.1 (
        c.function,
        ok_or-some _ _ c.function c.is_exported,
        (
          c.inputs,
          ok_or-some _ _ c.inputs c.has_inputs,
          (
            c.names,
            (named_iff _ c.inputs c.names).1 c.are_named,
            ((same_sets c.names (BTreeMap.keys arguments)).1 c.supplies, c.no_key),
          ),
        ),
      ),
    )
