-- ===== src/Cli/Arguments/Exact.antt =====
-- Which migration arguments the command line accepts, and the map that it makes of them.
use soroban_upgrades.Base.{
  String, Bool, true, false, not, ◌≡◌, refl, sym, subst, ◌∙◌, ap, ◌↔◌, List, [], ◌∷◌, In, inl, inr,
  arith, eq_iff, map,
}
use soroban_upgrades.Base.Text.{◌<>◌}
use soroban_upgrades.Base.BTreeMap
use soroban_upgrades.Base.BTreeMap.{BTreeMap}
use soroban_upgrades.Cli.Anyhow.{done, some_or, >>=_iff, two_tests_iff, some_or_iff, done_inj}
use soroban_upgrades.Artifact.Load.Unique.{HasNoRepeat}
use soroban_upgrades.Cli.Arguments.{
  split_once, is_argument_name, insert_argument, parse_argument, parse_from, parse_named_arguments,
}
use soroban_upgrades.Cli.Arguments.Names.{
  IsArgumentName, is_argument_name_iff, split_once-eq-some, split_once-name,
}

-- A value reads as a name and an argument: it is the two with the sign of equality between.
abbrev pub ReadsAs : String → String × String → Type 0
ReadsAs value (name, argument) = IsArgumentName name × (value ≡ name <> ("=" <> argument))

abbrev pub ReadAs : List String → List (String × String) → Type 0
ReadAs [] [] = Unit
ReadAs (value ∷ values) (pair ∷ pairs) = ReadsAs value pair × ReadAs values pairs
ReadAs _ _ = ⊥

not-not : (b : Bool) → (not b ≡ false) ↔ (b ≡ true)
not-not true = (λ _. refl, λ _. refl)
not-not false = (λ h. cc, λ h. cc)

insert_argument_iff :
    (m next : BTreeMap String) (p : String × String)
    → (insert_argument m p ≡ done next) ↔ (
        ((is_argument_name p.0 ≡ true) × (BTreeMap.contains_key p.0 m ≡ false))
        × (BTreeMap.insert p.0 p.1 m ≡ next))
unfolding insert_argument
insert_argument_iff m next (name, argument) =
    let (f, g) =
      two_tests_iff (not (is_argument_name name)) (BTreeMap.contains_key name m) _ _
        (BTreeMap.insert name argument m) next in
    let (to, from) = not-not (is_argument_name name) in
    (λ h. let ((a, b), q) = f h in ((to a, b), q), λ ((a, b), q). g ((from a, b), q))

abbrev pub Inserts : BTreeMap String → BTreeMap String → String × String → Type 0
Inserts m next p = (BTreeMap.contains_key p.0 m ≡ false) × (BTreeMap.insert p.0 p.1 m ≡ next)

parse_argument_iff :
    (m next : BTreeMap String) (value : String)
    → (parse_argument m value ≡ done next)
      ↔ ((p : String × String) × ReadsAs value p × Inserts m next p)
unfolding parse_argument
parse_argument_iff m next value = (
  λ h.
      let (p, o, inserted) =
        (>>=_iff (some_or (split_once value) _) (insert_argument m) next).0 h in
      let s = (some_or_iff (split_once value) _ p).0 o in
      let ((valid, fresh), q) = (insert_argument_iff m next p).0 inserted in
      (p, ((is_argument_name_iff p.0).0 valid, split_once-eq-some value p.0 p.1 s), (fresh, q)),
  λ (p, (valid, e), (fresh, q)).
      let s = ap split_once e ∙ split_once-name p.0 p.1 valid.has_name_chars in
      (>>=_iff (some_or (split_once value) _) (insert_argument m) next).1 (
        p,
        (some_or_iff (split_once value) _ p).1 s,
        (insert_argument_iff m next p).1 (((is_argument_name_iff p.0).1 valid, fresh), q),
      ),
)

abbrev pub names : List (String × String) → List String
names pairs = map (λ (p : String × String). p.0) pairs

contains_key-insert :
    (k j v : String) (m : BTreeMap String)
    → (BTreeMap.contains_key j (BTreeMap.insert k v m) ≡ false)
      ↔ ((¬ (k ≡ j)) × (BTreeMap.contains_key j m ≡ false))
unfolding BTreeMap.contains_key
contains_key-insert k j v m = rw BTreeMap.get-insert (ground (arith, eq_iff k j))

-- The names are new to the map, and no two are equal.
abbrev AreNew : BTreeMap String → List String → Type 0
AreNew m ns = ((n : String) → In n ns → BTreeMap.contains_key n m ≡ false) × HasNoRepeat ns

AreNew-insert :
    (m : BTreeMap String) (n v : String) (ns : List String)
    → ((BTreeMap.contains_key n m ≡ false) × AreNew (BTreeMap.insert n v m) ns) ↔ AreNew m (n ∷ ns)
AreNew-insert m n v ns = (
  λ (fresh, (avoid, distinct)). (
    λ x i. elim i [
      | inl e ↦ subst (λ y. BTreeMap.contains_key y m ≡ false) (sym e) fresh
      | inr later ↦ ((contains_key-insert n x v m).0 (avoid x later)).1
    ],
    (λ i. ((contains_key-insert n n v m).0 (avoid n i)).0 refl, distinct),
  ),
  λ (avoid, (missing, distinct)). (
    avoid n (inl refl),
    (
      λ x i.
          (contains_key-insert n x v m).1
            (λ e. missing (subst (λ y. In y ns) (sym e) i), avoid x (inr i)),
      distinct,
    ),
  ),
)

parse_from_iff :
    (values : List String) (m r : BTreeMap String)
    → (parse_from m values ≡ done r) ↔ (
        (pairs : List (String × String)) × ReadAs values pairs
        × AreNew m (names pairs)
        × (BTreeMap.extend m pairs ≡ r))
unfolding parse_from BTreeMap.extend
parse_from_iff [] m r =
    (λ h. ([], tt, (λ n i. absurd i, tt), done_inj h), λ (pairs, read, new, q). empty pairs read q)
  where
    empty :
        (pairs : List (String × String))
        → ReadAs [] pairs
        → BTreeMap.extend m pairs ≡ r
        → done m ≡ done r
    empty [] read q = ap done q
    empty (p ∷ ps) read q = absurd read
parse_from_iff (value ∷ values) m r = (
  λ h.
      let (next, step, rest) =
        (>>=_iff (parse_argument m value) (λ x. parse_from x values) r).0 h in
      let (p, reads, (fresh, q)) = (parse_argument_iff m next value).0 step in
      let (ps, read, new, e) = (parse_from_iff values next r).0 rest in
      let new' = subst (λ x. AreNew x (names ps)) (sym q) new in
      (
        p ∷ ps,
        (reads, read),
        (AreNew-insert m p.0 p.1 (names ps)).0 (fresh, new'),
        ap (λ x. BTreeMap.extend x ps) q ∙ e,
      ),
  λ (pairs, read, new, e). build (parse_from_iff values) pairs read new e,
)
  where
    build :
        ((next r : BTreeMap String)
          → (parse_from next values ≡ done r) ↔ (
              (ps : List (String × String)) × ReadAs values ps
              × AreNew next (names ps)
              × (BTreeMap.extend next ps ≡ r)))
        → (pairs : List (String × String)) → ReadAs (value ∷ values) pairs
        → AreNew m (names pairs)
        → BTreeMap.extend m pairs ≡ r
        → parse_from m (value ∷ values) ≡ done r
    build later [] read new e = absurd read
    build later (p ∷ ps) (reads, read) new e =
        let (fresh, new') = (AreNew-insert m p.0 p.1 (names ps)).1 new in
        let next = BTreeMap.insert p.0 p.1 m in
        (>>=_iff (parse_argument m value) (λ x. parse_from x values) r).1 (
          next,
          (parse_argument_iff m next value).1 (p, reads, (fresh, refl)),
          (later next r).1 (ps, read, new', e),
        )

-- The migration arguments are accepted exactly where each is a name of letters, digits and
-- underscores, a sign of equality and a value, and no name is given twice; the map that is made
-- holds these names with their values.
pub parse_named_arguments_iff :
    (values : List String) (r : BTreeMap String)
    → (parse_named_arguments values ≡ done r) ↔ (
        (pairs : List (String × String)) × ReadAs values pairs
        × HasNoRepeat (names pairs)
        × (BTreeMap.collect pairs ≡ r))
unfolding parse_named_arguments BTreeMap.collect BTreeMap.contains_key BTreeMap.get
parse_named_arguments_iff values r =
    let (f, g) = parse_from_iff values [] r in
    (
      λ h. let (pairs, read, new, e) = f h in (pairs, read, new.1, e),
      λ (pairs, read, distinct, e). g (pairs, read, (λ n i. fresh n, distinct), e),
    )
  where
    fresh : (n : String) → BTreeMap.contains_key {V = String} n [] ≡ false
    fresh n = refl
