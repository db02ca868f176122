-- ===== src/Cli/Arguments.antt =====
-- `parse_named_arguments`: the migration arguments of the form NAME=VALUE.
pub mod Names
pub mod Exact
use Prim.Native.Char.{code, Char}
use soroban_upgrades.Base.{
  ℕ, String, Bool, true, false, not, ◌&&◌, ◌||◌, ◌≡◌, refl, sym, ◌∙◌, ap, ◌↔◌, List, [], ◌∷◌,
  Option, none, some, if◌then◌else◌, ◌==◌, In, inl, inr, arith, str_eq, eq_iff, map,
}
use soroban_upgrades.Base.Text.{◌<>◌, all_chars, is_ascii_alphanumeric, is_empty_text}
use soroban_upgrades.Base.BTreeMap
use soroban_upgrades.Base.BTreeMap.{BTreeMap}
use soroban_upgrades.Cli.Anyhow.{
  Outcome, done, ◌>>=◌, ◌>>◌, bail_if, some_or, >>=_iff, >>_iff, bail_if_iff, some_or_iff, done_inj,
}

abbrev in_front : Char → Option (String × String) → Option (String × String)
in_front c none = none
in_front c (some (name, argument)) = some (String.◌∷◌ c name, argument)

-- `str::split_once('=')`
unfoldable pub split_once : String → Option (String × String)
split_once String.[] = none
split_once (String.◌∷◌ c s) =
    let rest = split_once s in if code c == b'=' then some ("", s) else in_front c rest

unfoldable pub is_name_char : ℕ → Bool
is_name_char c = is_ascii_alphanumeric c || c == b'_'

unfoldable pub is_argument_name : String → Bool
unfolding is_name_char
is_argument_name name = not (is_empty_text name || not (all_chars is_name_char name))

-- What the loop's body does with the name and the argument of a value.
unfoldable pub insert_argument : BTreeMap String → String × String → Outcome (BTreeMap String)
unfolding is_argument_name
insert_argument arguments (name, argument) =
    bail_if (not (is_argument_name name)) ("migration argument name `" <> name <> "` is invalid")
    >> bail_if (BTreeMap.contains_key name arguments)
        ("migration argument `" <> name <> "` was supplied more than once")
    >> done (BTreeMap.insert name argument arguments)

unfoldable pub parse_argument : BTreeMap String → String → Outcome (BTreeMap String)
unfolding split_once insert_argument
parse_argument arguments value =
    some_or (split_once value) ("migration argument `" <> value <> "` must use NAME=VALUE form")
    >>= insert_argument arguments

unfoldable pub parse_from : BTreeMap String → List String → Outcome (BTreeMap String)
parse_from arguments [] = done arguments
parse_from arguments (value ∷ values) = do
  next ← parse_argument arguments value
  parse_from next values

unfoldable pub parse_named_arguments : List String → Outcome (BTreeMap String)
unfolding parse_from
parse_named_arguments values = parse_from [] values
