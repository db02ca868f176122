-- ===== src/Base/BTreeMap.antt =====
-- `std::collections::BTreeMap<String, V>`: the entries in ascending order of their keys.
use soroban_upgrades.Base.{
  Ordering, String, ◌≡◌, refl, Bool, true, Option, none, some, List, [], ◌∷◌, In, arith,
  if◌then◌else◌, str_eq, eq_iff, is_some, ◌↔◌,
}
use soroban_upgrades.Base.Order.{string_ord}
use soroban_upgrades.Base.BTreeSet.{BTreeSet, IsSorted}
use soroban_upgrades.Base.BTreeSet
use Prim.Native.String.{compare}

abbrev pub BTreeMap {ℓ} : Type ℓ → Type ℓ
BTreeMap V = List (String × V)

module _ {ℓ} {V : Type ℓ} where
  unfoldable pub get : String → BTreeMap V → Option V
  get k [] = none
  get k ((j, v) ∷ m) = if str_eq j k then some v else get k m

  unfoldable pub contains_key : String → BTreeMap V → Bool
  unfolding get
  contains_key k m = is_some (get k m)

  -- The map after `insert`; what `insert` returns is `get k m` before.
  unfoldable pub insert : String → V → BTreeMap V → BTreeMap V
  insert k v [] = (k, v) ∷ []
  insert k v ((j, w) ∷ m) = elim (compare k j) [
    | Ordering.lt ↦ (k, v) ∷ (j, w) ∷ m
    | Ordering.eq ↦ (j, v) ∷ m
    | Ordering.gt ↦ (j, w) ∷ insert k v m
  ]

  -- `entries.collect::<BTreeMap<_, _>>()`: a later entry replaces an earlier one of its key.
  unfoldable pub extend : BTreeMap V → List (String × V) → BTreeMap V
  extend m [] = m
  extend m ((k, v) ∷ r) = extend (insert k v m) r

  unfoldable pub collect : List (String × V) → BTreeMap V
  unfolding extend
  collect r = extend [] r

  abbrev pub keys : BTreeMap V → List String
  keys [] = []
  keys ((k, v) ∷ m) = k ∷ keys m

  abbrev pub values : BTreeMap V → List V
  values [] = []
  values ((k, v) ∷ m) = v ∷ values m

  pub get-insert :
      (k j : String) (v : V) (m : BTreeMap V)
      → get j (insert k v m) ≡ (if str_eq k j then some v else get j m)
  unfolding get insert
  get-insert k j v [] = refl
  get-insert k j v ((i, w) ∷ m) =
      ground (arith, eq_iff k j, eq_iff i k, eq_iff i j, eq_iff k i, get-insert k j v m)

  pub contains_key_iff : (k : String) (m : BTreeMap V) → (contains_key k m ≡ true) ↔ In k (keys m)
  unfolding contains_key get
  contains_key_iff k [] = (λ h. cc, λ h. absurd h)
  contains_key_iff k ((j, v) ∷ m) = ground (arith, contains_key_iff k m, eq_iff j k)

  pub keys-insert :
      (k : String) (v : V) (m : BTreeMap V) → keys (insert k v m) ≡ BTreeSet.insert k (keys m)
  unfolding insert BTreeSet.insert
  keys-insert k v [] = refl
  keys-insert k v ((j, w) ∷ m) = ground (arith, keys-insert k v m)

  abbrev pub IsOrdered : BTreeMap V → Type 0
  IsOrdered m = IsSorted (keys m)

  pub insert-IsOrdered :
      (k : String) (v : V) (m : BTreeMap V) → IsOrdered m → IsOrdered (insert k v m)
  insert-IsOrdered k v m h = rw keys-insert (BTreeSet.insert-IsSorted k (keys m) h)

module _ {V : Type 0} where
  pair_iff : (k j : String) (v w : V) → ◌≡◌ {A = String × V} (k, v) (j, w) ↔ ((k ≡ j) × (v ≡ w))
  pair_iff k j v w = (λ p. (λ i. (p i).0, λ i. (p i).1), λ (p, q). λ i. (p i, q i))

  key_of_In : (k : String) (v : V) (m : BTreeMap V) → In (k, v) m → In k (keys m)
  key_of_In k v [] h = absurd h
  key_of_In k v ((j, w) ∷ m) h = ground (arith, pair_iff k j v w, key_of_In k v m)

  -- In an ordered map, a lookup finds exactly the entry of its key.
  pub get_iff :
      (k : String) (v : V) (m : BTreeMap V) → IsOrdered m → (get k m ≡ some v) ↔ In (k, v) m
  unfolding get
  get_iff k v [] h = ground arith
  get_iff k v ((j, w) ∷ m) h = ground (
    arith,
    eq_iff j k,
    pair_iff k j v w,
    get_iff k v m h.1,
    key_of_In k v m,
    λ (q : In k (keys m)). BTreeSet.lt_of_In j k (keys m) h.0 q,
    string_ord.cmp_refl k,
  )
