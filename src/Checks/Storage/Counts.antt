-- ===== src/Checks/Storage/Counts.antt =====
-- The key counts of a storage manifest are the numbers of entries that declare each key.
use soroban_upgrades.Base.{
  ℕ, ◌+◌, ◌≤◌, String, ◌≡◌, ◌↔◌, inl, inr, List, [], ◌∷◌, In, arith, str_eq, eq_iff, unwrap_or,
  Option-cases, if◌then◌else◌, filter, length,
}
use soroban_upgrades.Base.BTreeMap
use soroban_upgrades.Base.BTreeMap.{BTreeMap}
use soroban_upgrades.Schema.{StorageEntry, StorageSchema}
use soroban_upgrades.Checks.Storage.{key_counts, key_counts_from, count_key}

-- How many entries of a schema declare a key.
abbrev pub occurrences : String → List StorageEntry → ℕ
occurrences key entries = length (filter (λ e. str_eq e.key key) entries)

count_key-get :
    (key : String) (counts : BTreeMap ℕ) (entry : StorageEntry)
    → unwrap_or (BTreeMap.get key (count_key counts entry)) 0
      ≡ unwrap_or (BTreeMap.get key counts) 0 + (if str_eq entry.key key then 1 else 0)
unfolding count_key
count_key-get key counts entry = rw BTreeMap.get-insert (ground (arith, eq_iff entry.key key))

key_counts_from-get :
    (key : String) (counts : BTreeMap ℕ) (entries : List StorageEntry)
    → unwrap_or (BTreeMap.get key (key_counts_from counts entries)) 0
      ≡ unwrap_or (BTreeMap.get key counts) 0 + occurrences key entries
key_counts_from-get key counts [] = omega arith
key_counts_from-get key counts (entry ∷ entries) = ground (
  arith,
  count_key-get key counts entry,
  key_counts_from-get key (count_key counts entry) entries,
)

key_counts_from-IsOrdered :
    (counts : BTreeMap ℕ) (entries : List StorageEntry)
    → BTreeMap.IsOrdered counts
    → BTreeMap.IsOrdered (key_counts_from counts entries)
unfolding count_key
key_counts_from-IsOrdered counts [] h = h
key_counts_from-IsOrdered counts (entry ∷ entries) h =
    key_counts_from-IsOrdered (count_key counts entry) entries
      (BTreeMap.insert-IsOrdered entry.key _ counts h)

-- For every key, the count that the map holds, or zero where it holds none, is the number of
-- entries that declare the key.
pub key_counts-get :
    (key : String) (entries : List StorageEntry)
    → unwrap_or (BTreeMap.get key (key_counts entries)) 0 ≡ occurrences key entries
unfolding key_counts BTreeMap.get
key_counts-get key entries = omega (arith, key_counts_from-get key [] entries)

-- No key is declared twice.
abbrev pub HasDistinctKeys : StorageSchema → Type 0
HasDistinctKeys schema = (key : String) → occurrences key schema.entries ≤ 1

pub distinct_iff :
    (schema : StorageSchema)
    → ((count : String × ℕ) → In count (key_counts schema.entries) → count.1 ≤ 1)
      ↔ HasDistinctKeys schema
unfolding key_counts
distinct_iff schema = (at_most_once, counted)
  where
    ordered : BTreeMap.IsOrdered (key_counts schema.entries)
    ordered = key_counts_from-IsOrdered [] schema.entries tt

    at_most_once :
        ((count : String × ℕ) → In count (key_counts schema.entries) → count.1 ≤ 1)
        → HasDistinctKeys schema
    at_most_once h key = elim (Option-cases (BTreeMap.get key (key_counts schema.entries))) [
      | inl missing ↦ let e = key_counts-get key schema.entries in omega (arith, rw missing at e)
      | inr (count, found) ↦
          let e = key_counts-get key schema.entries in
          let le =
            h (key, count)
              ((BTreeMap.get_iff key count (key_counts schema.entries) ordered).0 found) in
          omega (arith, rw found at e)
    ]

    counted :
        HasDistinctKeys schema
        → (count : String × ℕ) → In count (key_counts schema.entries)
        → count.1 ≤ 1
    counted h (key, count) m =
        let found = (BTreeMap.get_iff key count (key_counts schema.entries) ordered).1 m in
        let e = key_counts-get key schema.entries in omega (arith, h key, rw found at e)
