-- ===== src/Json/Strict.antt =====
-- `UniqueJson`, its visitor, and `parse_json_strict`: a document with a repeated object key, at any
-- depth, is refused before it is decoded.
use soroban_upgrades.Base.{ℕ, String, ◌≡◌, refl, subst, ◌↔◌, ◌⊎◌, List, [], In, arith, inl, inr}
use soroban_upgrades.Base.Result.{
  json, Result, ok, ◌>>=◌, ◌>>◌, fail_if, >>=-eq-ok, >>-eq-ok, fail_if-eq-ok_iff,
}
use soroban_upgrades.Base.Order.{string_ord}
use soroban_upgrades.Base.BTreeSet
use soroban_upgrades.Base.BTreeSet.{BTreeSet}
use soroban_upgrades.Json.Value.{
  Value, null, bool, number, string, array, object, Items, nil, cons, Fields, end, field,
}

-- What serde_json supplies: the events of a whole document, as a tree in document order, the
-- decoder of a type, and the message of a custom error at a key.
pub record Reader (T : Type 0) : Type 0 where
  pub document : List ℕ → Result Value
  pub from_slice : List ℕ → Result T
  pub duplicate_key_message : String → String

module _ (message : String → String) where
  -- `UniqueJsonVisitor`. Scalars are accepted; `visit_map` keeps the keys seen so far, and tests a
  -- key before it visits the member's value.
  unfoldable mutual
    pub visit : Value → Result (Unit {0})
    visit null = ok tt
    visit (bool b) = ok tt
    visit (number n) = ok tt
    visit (string s) = ok tt
    visit (array vs) = visit_seq vs
    visit (object fs) = visit_map [] fs

    pub visit_seq : Items → Result (Unit {0})
    visit_seq nil = ok tt
    visit_seq (cons v vs) = visit v >> visit_seq vs

    pub visit_map : BTreeSet String → Fields → Result (Unit {0})
    visit_map keys end = ok tt
    visit_map keys (field k v fs) =
        fail_if (BTreeSet.contains k keys) (json (message k))
        >> (visit v >> visit_map (BTreeSet.insert k keys) fs)

unfoldable pub parse_json_strict : {T : Type 0} → Reader T → List ℕ → Result T
parse_json_strict r bytes = do
  value ← r.document bytes
  visit r.duplicate_key_message value
  r.from_slice bytes

abbrev pub HasKey : String → Fields → Type 0
HasKey k end = ⊥
HasKey k (field j v fs) = (k ≡ j) ⊎ HasKey k fs

-- No object of the document, at any depth, names a key twice.
abbrev mutual
  pub HasUniqueKeys : Value → Type 0
  HasUniqueKeys (object fs) = FieldsAreUnique fs
  HasUniqueKeys (array vs) = ItemsAreUnique vs
  HasUniqueKeys null = Unit
  HasUniqueKeys (bool b) = Unit
  HasUniqueKeys (number n) = Unit
  HasUniqueKeys (string s) = Unit

  pub ItemsAreUnique : Items → Type 0
  ItemsAreUnique nil = Unit
  ItemsAreUnique (cons v vs) = HasUniqueKeys v × ItemsAreUnique vs

  pub FieldsAreUnique : Fields → Type 0
  FieldsAreUnique end = Unit
  FieldsAreUnique (field k v fs) = (¬ HasKey k fs) × HasUniqueKeys v × FieldsAreUnique fs

-- The step of `visit_map`: the keys to come avoid those seen and the one at hand.
avoids-insert :
    (k : String) (fs : Fields) (keys : BTreeSet String)
    → ((j : String) → HasKey j fs → ¬ In j (BTreeSet.insert k keys))
      ↔ ((¬ HasKey k fs) × ((j : String) → HasKey j fs → ¬ In j keys))
avoids-insert k fs keys = (
  λ h. (
    λ m. h k m ((BTreeSet.In-insert k k keys).1 (inl refl)),
    λ j m i. h j m ((BTreeSet.In-insert j k keys).1 (inr i)),
  ),
  λ h j m i. elim ((BTreeSet.In-insert j k keys).0 i) [
    | inl e ↦ h.0 (subst (λ x. HasKey x fs) e m)
    | inr old ↦ h.1 j m old
  ],
)

not-In_of_test :
    (k : String) (keys : BTreeSet String) (message : String)
    → fail_if (BTreeSet.contains k keys) (json message) ≡ ok tt
    → ¬ In k keys
not-In_of_test k keys message h m = ground (
  arith,
  BTreeSet.contains_iff k keys,
  fail_if-eq-ok_iff (BTreeSet.contains k keys) (json message),
)

test_of_not-In :
    (k : String) (keys : BTreeSet String) (message : String)
    → ¬ In k keys
    → fail_if (BTreeSet.contains k keys) (json message) ≡ ok tt
test_of_not-In k keys message h = ground (
  arith,
  BTreeSet.contains_iff k keys,
  fail_if-eq-ok_iff (BTreeSet.contains k keys) (json message),
)

module _ (message : String → String) where
  mutual
    unfolding visit

    visit_iff : (v : Value) → (visit message v ≡ ok tt) ↔ HasUniqueKeys v
    visit_iff null = (λ _. tt, λ _. refl)
    visit_iff (bool b) = (λ _. tt, λ _. refl)
    visit_iff (number n) = (λ _. tt, λ _. refl)
    visit_iff (string s) = (λ _. tt, λ _. refl)
    visit_iff (array vs) = visit_seq_iff vs
    visit_iff (object fs) =
        let h = visit_map_iff fs [] in (λ e. (h.0 e).1, λ u. h.1 (λ k m i. absurd i, u))

    visit_seq_iff : (vs : Items) → (visit_seq message vs ≡ ok tt) ↔ ItemsAreUnique vs
    visit_seq_iff nil = (λ _. tt, λ _. refl)
    visit_seq_iff (cons v vs) = ground (
      arith,
      >>-eq-ok (visit message v) (visit_seq message vs) {b = tt},
      visit_iff v,
      visit_seq_iff vs,
    )

    visit_map_iff :
        (fs : Fields) (keys : BTreeSet String)
        → (visit_map message keys fs ≡ ok tt)
          ↔ (((k : String) → HasKey k fs → ¬ In k keys) × FieldsAreUnique fs)
    visit_map_iff end keys = (λ _. (λ k h i. absurd h, tt), λ _. refl)
    visit_map_iff (field k v fs) keys =
        let keys' = BTreeSet.insert k keys in
        let test = fail_if (BTreeSet.contains k keys) (json (message k)) in
        let first = >>-eq-ok test (visit message v >> visit_map message keys' fs) {b = tt} in
        let second = >>-eq-ok (visit message v) (visit_map message keys' fs) {b = tt} in
        let rest = visit_map_iff fs keys' in
        let avoids = avoids-insert k fs keys in
        (
          λ e.
              let parts = first.0 e in
              let values = second.0 parts.1 in
              let after = rest.0 values.1 in
              let new = avoids.0 after.0 in
              (
                λ j m i. elim m [
                  | inl p ↦
                      absurd
                        (not-In_of_test k keys (message k) parts.0 (subst (λ x. In x keys) p i))
                  | inr later ↦ new.1 j later i
                ],
                (new.0, (visit_iff v).0 values.0, after.1),
              ),
          λ (clear, unique). first.1 (
            test_of_not-In k keys (message k) (clear k (inl refl)),
            second.1 (
              (visit_iff v).1 unique.1,
              rest.1 (avoids.1 (unique.0, λ j m. clear j (inr m)), unique.2),
            ),
          ),
        )

module _ {T : Type 0} (r : Reader T) (bytes : List ℕ) where
  -- For every reader, bytes and value, strict parsing returns the value exactly where the bytes
  -- are a document in which no object names a key twice, and the decoder returns the value.
  pub parse_json_strict-eq-ok_iff :
      (t : T)
      → (parse_json_strict r bytes ≡ ok t)
        ↔ ((v : Value) × (r.document bytes ≡ ok v) × HasUniqueKeys v × (r.from_slice bytes ≡ ok t))
  unfolding parse_json_strict
  parse_json_strict-eq-ok_iff t = (
    λ h.
        let (v, read, h') = >>=-eq-ok (r.document bytes) _ h in
        let parts = (>>-eq-ok (visit r.duplicate_key_message v) (r.from_slice bytes)).0 h' in
        (v, read, (visit_iff r.duplicate_key_message v).0 parts.0, parts.1),
    λ (v, read, unique, decoded). rw read (
        (>>-eq-ok (visit r.duplicate_key_message v) (r.from_slice bytes)).1
          ((visit_iff r.duplicate_key_message v).1 unique, decoded)),
  )
