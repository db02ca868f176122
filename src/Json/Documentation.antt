-- ===== src/Json/Documentation.antt =====
-- `strip_documentation`: documentation is not part of the compared interface.
use soroban_upgrades.Base.{String, ◌≡◌, refl, ap, ap₂, ◌≢◌, str_eq, eq_iff, if◌then◌else◌, arith}
use soroban_upgrades.Json.Value.{
  Value, null, bool, number, string, array, object, Items, nil, cons, Fields, end, field, get,
  get_member,
}
use mathlib.Core.Option

-- `object.remove("doc")` and the loop over the remaining members are one pass here: a member named
-- "doc" is dropped, and every other one is stripped in place.
unfoldable mutual
  pub strip_documentation : Value → Value
  strip_documentation (object fs) = object (strip_fields fs)
  strip_documentation (array vs) = array (strip_items vs)
  strip_documentation null = null
  strip_documentation (bool b) = bool b
  strip_documentation (number n) = number n
  strip_documentation (string s) = string s

  pub strip_items : Items → Items
  strip_items nil = nil
  strip_items (cons v vs) = cons (strip_documentation v) (strip_items vs)

  pub strip_fields : Fields → Fields
  strip_fields end = end
  strip_fields (field k v fs) =
      if str_eq k "doc" then strip_fields fs else field k (strip_documentation v) (strip_fields fs)

-- No object of the document, at any depth, has a member named "doc".
abbrev mutual
  pub HasNoDoc : Value → Type 0
  HasNoDoc (object fs) = FieldsHaveNoDoc fs
  HasNoDoc (array vs) = ItemsHaveNoDoc vs
  HasNoDoc null = Unit
  HasNoDoc (bool b) = Unit
  HasNoDoc (number n) = Unit
  HasNoDoc (string s) = Unit

  pub ItemsHaveNoDoc : Items → Type 0
  ItemsHaveNoDoc nil = Unit
  ItemsHaveNoDoc (cons v vs) = HasNoDoc v × ItemsHaveNoDoc vs

  pub FieldsHaveNoDoc : Fields → Type 0
  FieldsHaveNoDoc end = Unit
  FieldsHaveNoDoc (field k v fs) = (k ≢ "doc") × HasNoDoc v × FieldsHaveNoDoc fs

mutual
  unfolding strip_documentation

  strip-HasNoDoc : (v : Value) → HasNoDoc (strip_documentation v)
  strip-HasNoDoc (object fs) = strip-FieldsHaveNoDoc fs
  strip-HasNoDoc (array vs) = strip-ItemsHaveNoDoc vs
  strip-HasNoDoc null = tt
  strip-HasNoDoc (bool b) = tt
  strip-HasNoDoc (number n) = tt
  strip-HasNoDoc (string s) = tt

  strip-ItemsHaveNoDoc : (vs : Items) → ItemsHaveNoDoc (strip_items vs)
  strip-ItemsHaveNoDoc nil = tt
  strip-ItemsHaveNoDoc (cons v vs) = (strip-HasNoDoc v, strip-ItemsHaveNoDoc vs)

  strip-FieldsHaveNoDoc : (fs : Fields) → FieldsHaveNoDoc (strip_fields fs)
  strip-FieldsHaveNoDoc end = tt
  strip-FieldsHaveNoDoc (field k v fs) =
      ground (arith, eq_iff k "doc", strip-HasNoDoc v, strip-FieldsHaveNoDoc fs)

mutual
  unfolding strip_documentation

  strip_of_HasNoDoc : (v : Value) → HasNoDoc v → strip_documentation v ≡ v
  strip_of_HasNoDoc (object fs) h = ap object (strip_fields_of_HasNoDoc fs h)
  strip_of_HasNoDoc (array vs) h = ap array (strip_items_of_HasNoDoc vs h)
  strip_of_HasNoDoc null h = refl
  strip_of_HasNoDoc (bool b) h = refl
  strip_of_HasNoDoc (number n) h = refl
  strip_of_HasNoDoc (string s) h = refl

  strip_items_of_HasNoDoc : (vs : Items) → ItemsHaveNoDoc vs → strip_items vs ≡ vs
  strip_items_of_HasNoDoc nil h = refl
  strip_items_of_HasNoDoc (cons v vs) h =
      ap₂ cons (strip_of_HasNoDoc v h.0) (strip_items_of_HasNoDoc vs h.1)

  strip_fields_of_HasNoDoc : (fs : Fields) → FieldsHaveNoDoc fs → strip_fields fs ≡ fs
  strip_fields_of_HasNoDoc end h = refl
  strip_fields_of_HasNoDoc (field k v fs) h =
      ground (arith, eq_iff k "doc", strip_of_HasNoDoc v h.1, strip_fields_of_HasNoDoc fs h.2)

get_member-strip :
    (k : String) (fs : Fields)
    → k ≢ "doc"
    → get_member k (strip_fields fs) ≡ Option.map strip_documentation (get_member k fs)
unfolding strip_documentation
get_member-strip k end h = refl
get_member-strip k (field j v fs) h =
    ground (arith, eq_iff j "doc", eq_iff j k, get_member-strip k fs h)

get-strip :
    (v : Value) (k : String)
    → k ≢ "doc"
    → get k (strip_documentation v) ≡ Option.map strip_documentation (get k v)
unfolding strip_documentation get
get-strip (object fs) k h = get_member-strip k fs h
get-strip v k h = refl

-- The canonical form has no documentation at any depth; a value without documentation is its own
-- canonical form, so canonicalising twice is canonicalising once; and every member other than "doc"
-- is still there, canonicalised.
pub strip_documentation_lem :
    (v : Value)
    → HasNoDoc (strip_documentation v)
      × (HasNoDoc v → strip_documentation v ≡ v)
      × (strip_documentation (strip_documentation v) ≡ strip_documentation v)
      × ((k : String)
          → k ≢ "doc"
          → get k (strip_documentation v) ≡ Option.map strip_documentation (get k v))
strip_documentation_lem v = (
  strip-HasNoDoc v,
  strip_of_HasNoDoc v,
  strip_of_HasNoDoc (strip_documentation v) (strip-HasNoDoc v),
  get-strip v,
)
