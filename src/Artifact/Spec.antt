-- ===== src/Artifact/Spec.antt =====
-- The contract specification that soroban_spec decodes (the types of stellar_xdr, as far as the
-- program reads them) and `collect_udt_names`. A name is its `to_utf8_string_lossy` text.
use soroban_upgrades.Base.{ℕ, String, ◌≡◌, ◌↔◌, ◌⊎◌, inl, inr, List, In, arith}
use soroban_upgrades.Base.Result.{Result}
use soroban_upgrades.Base.Order.{string_ord}
use soroban_upgrades.Base.BTreeSet
use soroban_upgrades.Base.BTreeSet.{BTreeSet}
use soroban_upgrades.Json.Value.{Value}

mutual
  pub data ScSpecTypeDef : Type 0 where
    val bool void error u32 i32 u64 i64 timepoint duration u128 i128 u256 i256 : ScSpecTypeDef
    bytes string symbol address muxed_address : ScSpecTypeDef
    bytes_n : ℕ → ScSpecTypeDef
    option vec : ScSpecTypeDef → ScSpecTypeDef
    result map : ScSpecTypeDef → ScSpecTypeDef → ScSpecTypeDef
    tuple : ScSpecTypeDefs → ScSpecTypeDef
    udt : String → ScSpecTypeDef

  pub data ScSpecTypeDefs : Type 0 where
    nil : ScSpecTypeDefs
    cons : ScSpecTypeDef → ScSpecTypeDefs → ScSpecTypeDefs

-- An input of a function or a field of a structure.
pub record Named : Type 0 where
  pub name : String
  pub type_ : ScSpecTypeDef

pub data UnionCase : Type 0 where
  void_v0 : String → UnionCase
  tuple_v0 : String → List ScSpecTypeDef → UnionCase

abbrev pub case_name : UnionCase → String
case_name (void_v0 name) = name
case_name (tuple_v0 name types) = name

pub data ScSpecEntry : Type 0 where
  function_v0 : (name : String) (inputs : List Named) (outputs : List ScSpecTypeDef) → ScSpecEntry
  udt_struct_v0 : (name : String) (fields : List Named) → ScSpecEntry
  udt_union_v0 : (name : String) (cases : List UnionCase) → ScSpecEntry
  udt_enum_v0 udt_error_enum_v0 : (name : String) (cases : List String) → ScSpecEntry
  event_v0 : (name : String) (params : List String) → ScSpecEntry

-- An entry with what `serde_json::to_value` makes of it, documentation included.
pub record SpecItem : Type 0 where
  pub entry : ScSpecEntry
  pub to_value : Result Value

unfoldable mutual
  pub collect_udt_names : ScSpecTypeDef → BTreeSet String → BTreeSet String
  collect_udt_names (udt name) destination = BTreeSet.insert name destination
  collect_udt_names (option t) destination = collect_udt_names t destination
  collect_udt_names (result t e) destination = collect_udt_names e (collect_udt_names t destination)
  collect_udt_names (vec t) destination = collect_udt_names t destination
  collect_udt_names (map k v) destination = collect_udt_names v (collect_udt_names k destination)
  collect_udt_names (tuple ts) destination = collect_members ts destination
  collect_udt_names _ destination = destination

  pub collect_members : ScSpecTypeDefs → BTreeSet String → BTreeSet String
  collect_members nil destination = destination
  collect_members (cons t ts) destination = collect_members ts (collect_udt_names t destination)

-- The user-defined types that stand in a type, at any depth.
abbrev mutual
  pub Mentions : String → ScSpecTypeDef → Type 0
  Mentions n (udt name) = n ≡ name
  Mentions n (option t) = Mentions n t
  Mentions n (result t e) = Mentions n t ⊎ Mentions n e
  Mentions n (vec t) = Mentions n t
  Mentions n (map k v) = Mentions n k ⊎ Mentions n v
  Mentions n (tuple ts) = MentionsIn n ts
  Mentions n _ = ⊥

  pub MentionsIn : String → ScSpecTypeDefs → Type 0
  MentionsIn n nil = ⊥
  MentionsIn n (cons t ts) = Mentions n t ⊎ MentionsIn n ts

mutual
  unfolding collect_udt_names

  In-collect_udt_names :
      (n : String) (t : ScSpecTypeDef) (s : BTreeSet String)
      → In n (collect_udt_names t s) ↔ (Mentions n t ⊎ In n s)
  In-collect_udt_names n (udt name) s = BTreeSet.In-insert n name s
  In-collect_udt_names n (option t) s = In-collect_udt_names n t s
  In-collect_udt_names n (result t e) s =
      ground (arith, In-collect_udt_names n e (collect_udt_names t s), In-collect_udt_names n t s)
  In-collect_udt_names n (vec t) s = In-collect_udt_names n t s
  In-collect_udt_names n (map k v) s =
      ground (arith, In-collect_udt_names n v (collect_udt_names k s), In-collect_udt_names n k s)
  In-collect_udt_names n (tuple ts) s = In-collect_members n ts s
  In-collect_udt_names n _ s = (inr, λ h. elim h [ inl m ↦ absurd m | inr m ↦ m ])

  In-collect_members :
      (n : String) (ts : ScSpecTypeDefs) (s : BTreeSet String)
      → In n (collect_members ts s) ↔ (MentionsIn n ts ⊎ In n s)
  In-collect_members n nil s = (inr, λ h. elim h [ inl m ↦ absurd m | inr m ↦ m ])
  In-collect_members n (cons t ts) s =
      ground (arith, In-collect_members n ts (collect_udt_names t s), In-collect_udt_names n t s)

-- The collected names are those that the destination had and those that stand in the type, at any
-- depth and under any type former.
pub collect_udt_names_iff :
    (n : String) (t : ScSpecTypeDef) (s : BTreeSet String)
    → In n (collect_udt_names t s) ↔ (Mentions n t ⊎ In n s)
collect_udt_names_iff n t s = In-collect_udt_names n t s
