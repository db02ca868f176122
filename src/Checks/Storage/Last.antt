-- ===== src/Checks/Storage/Last.antt =====
-- The map that `compare_storage_schemas` makes of a schema's entries: of entries with one key, it
-- holds the last.
use soroban_upgrades.Base.{
  String, ◌≡◌, ◌≢◌, sym, ap, subst, ◌∙◌, ◌↔◌, ◌⊎◌, inl, inr, Bool-cases, true, false, List, [], ◌∷◌,
  In, All, map, some, str_eq, eq_iff, if◌then◌else◌,
}
use soroban_upgrades.Base.BTreeMap
use soroban_upgrades.Base.BTreeMap.{BTreeMap}
use soroban_upgrades.Schema.{StorageEntry, StorageSchema}
use soroban_upgrades.Checks.Storage.{entries_by_key}

-- No entry of the list declares the key.
abbrev pub Lacks : String → List StorageEntry → Type 0
Lacks key entries = All (λ (e : StorageEntry). e.key ≢ key) entries

-- The entry is in the list, and none after it declares its key.
abbrev pub IsLast : StorageEntry → List StorageEntry → Type 0
IsLast e [] = ⊥
IsLast e (x ∷ xs) = IsLast e xs ⊎ ((e ≡ x) × Lacks e.key xs)

abbrev keyed : List StorageEntry → List (String × StorageEntry)
keyed entries = map (λ e. (e.key, e)) entries

extend-IsOrdered :
    (m : BTreeMap StorageEntry) (entries : List StorageEntry)
    → BTreeMap.IsOrdered m
    → BTreeMap.IsOrdered (BTreeMap.extend m (keyed entries))
unfolding BTreeMap.extend
extend-IsOrdered m [] h = h
extend-IsOrdered m (e ∷ entries) h =
    extend-IsOrdered (BTreeMap.insert e.key e m) entries (BTreeMap.insert-IsOrdered e.key e m h)

some_inj : {A : Type 0} {a b : A} → some a ≡ some b → a ≡ b
some_inj h = cc

-- What a lookup finds, after more entries: the last of them with the key, or what was there.
abbrev Found : String → StorageEntry → BTreeMap StorageEntry → List StorageEntry → Type 0
Found key e m entries =
    (IsLast e entries × (e.key ≡ key)) ⊎ (Lacks key entries × (BTreeMap.get key m ≡ some e))

module _ (key : String) (e : StorageEntry) (m : BTreeMap StorageEntry) (x : StorageEntry)
    (xs : List StorageEntry) where
  abbrev inserted : BTreeMap StorageEntry
  inserted = BTreeMap.insert x.key x m

  Found-cons : Found key e inserted xs ↔ Found key e m (x ∷ xs)
  Found-cons = elim (Bool-cases (str_eq x.key key)) [
    | inl test ↦
        let same = (eq_iff x.key key).0 test in
        let hit : BTreeMap.get key inserted ≡ some x =
          BTreeMap.get-insert x.key key x m
          ∙ ap (λ b. if b then some x else BTreeMap.get key m) test in
        (
          λ f. elim f [
            | inl (last, k) ↦ inl (inl last, k)
            | inr (lacks, g) ↦
                let q = some_inj (sym g ∙ hit) in
                let k = ap (λ (z : StorageEntry). z.key) q ∙ same in
                inl (inr (q, subst (λ n. Lacks n xs) (sym k) lacks), k)
          ],
          λ f. elim f [
            | inl (inl last, k) ↦ inl (last, k)
            | inl (inr (q, lacks), k) ↦ inr (subst (λ n. Lacks n xs) k lacks, hit ∙ ap some (sym q))
            | inr ((differs, lacks), g) ↦ absurd (differs same)
          ],
        )
    | inr test ↦
        let differs : x.key ≢ key = λ q. true_false (sym ((eq_iff x.key key).1 q) ∙ test) in
        let miss : BTreeMap.get key inserted ≡ BTreeMap.get key m =
          BTreeMap.get-insert x.key key x m
          ∙ ap (λ b. if b then some x else BTreeMap.get key m) test in
        (
          λ f. elim f [
            | inl (last, k) ↦ inl (inl last, k)
            | inr (lacks, g) ↦ inr ((differs, lacks), sym miss ∙ g)
          ],
          λ f. elim f [
            | inl (inl last, k) ↦ inl (last, k)
            | inl (inr (q, lacks), k) ↦
                absurd (differs (sym (ap (λ (z : StorageEntry). z.key) q) ∙ k))
            | inr ((differs', lacks), g) ↦ inr (lacks, miss ∙ g)
          ],
        )
  ]
    where
      true_false : true ≡ false → ⊥
      true_false h = cc

get-extend :
    (key : String) (e : StorageEntry) (m : BTreeMap StorageEntry) (entries : List StorageEntry)
    → (BTreeMap.get key (BTreeMap.extend m (keyed entries)) ≡ some e) ↔ Found key e m entries
unfolding BTreeMap.extend
get-extend key e m [] =
    (λ g. inr (tt, g), λ f. elim f [ inl (last, k) ↦ absurd last | inr (lacks, g) ↦ g ])
get-extend key e m (x ∷ xs) =
    let (f, g) = get-extend key e (BTreeMap.insert x.key x m) xs in
    let (h, k) = Found-cons key e m x xs in (λ a. h (f a), λ b. g (k b))

-- A lookup finds exactly the last entry of a key.
pub get-entries_by_key :
    (key : String) (e : StorageEntry) (schema : StorageSchema)
    → (BTreeMap.get key (entries_by_key schema) ≡ some e)
      ↔ (IsLast e schema.entries × (e.key ≡ key))
unfolding entries_by_key BTreeMap.collect BTreeMap.get
get-entries_by_key key e schema =
    let (f, g) = get-extend key e [] schema.entries in
    (
      λ h. elim (f h) [ inl last ↦ last | inr (lacks, found) ↦ absurd (nothing found) ],
      λ last. g (inl last),
    )
  where
    nothing : BTreeMap.get key [] ≡ some e → ⊥
    nothing h = cc

pub In-entries_by_key :
    (key : String) (e : StorageEntry) (schema : StorageSchema)
    → In (key, e) (entries_by_key schema) ↔ (IsLast e schema.entries × (e.key ≡ key))
unfolding entries_by_key BTreeMap.collect
In-entries_by_key key e schema =
    let (f, g) =
      BTreeMap.get_iff key e (entries_by_key schema) (extend-IsOrdered [] schema.entries tt) in
    let (h, k) = get-entries_by_key key e schema in (λ m. h (g m), λ last. f (k last))
