-- ===== src/Json/Value.antt =====
-- serde_json::Value: a document as a tree. An object is the list of its members: in key order where
-- it is a `Map`, in document order where it stands for the events of a parser.
use native.Mathlib.Decide.{ℕ_discrete}
use soroban_upgrades.Base.{
  ℕ, String, Bool, Option, none, some, List, [], ◌∷◌, str_eq, String-discrete, if◌then◌else◌,
}

pub data Number : Type 0 where
  pos_int neg_int float_bits : ℕ → Number

mutual
  pub data Value : Type 0 where
    null : Value
    bool : Bool → Value
    number : Number → Value
    string : String → Value
    array : Items → Value
    object : Fields → Value

  pub data Items : Type 0 where
    nil : Items
    cons : Value → Items → Items

  pub data Fields : Type 0 where
    end : Fields
    field : String → Value → Fields → Fields

unfoldable pub Value-discrete : Discrete Value
unfolding String-discrete ℕ_discrete
Value-discrete = hlevel (ℕ_discrete, String-discrete)

abbrev pub items_of : Items → List Value
items_of nil = []
items_of (cons v vs) = v ∷ items_of vs

abbrev pub members_of : Fields → List (String × Value)
members_of end = []
members_of (field k v fs) = (k, v) ∷ members_of fs

abbrev pub get_member : String → Fields → Option Value
get_member k end = none
get_member k (field j v fs) = if str_eq j k then some v else get_member k fs

-- `Value::get` with a key
unfoldable pub get : String → Value → Option Value
get k (object fs) = get_member k fs
get k v = none

unfoldable pub as_str : Value → Option String
as_str (string s) = some s
as_str v = none

unfoldable pub as_array : Value → Option (List Value)
as_array (array vs) = some (items_of vs)
as_array v = none

-- `Value::pointer`, with the pointer split at its slashes. No token that the program uses is a
-- number, so a step into an array finds nothing.
unfoldable pub pointer : List String → Value → Option Value
unfolding get
pointer [] v = some v
pointer (t ∷ ts) v = elim (get t v) [ none ↦ none | some w ↦ pointer ts w ]
