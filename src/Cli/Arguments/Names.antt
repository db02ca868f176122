-- ===== src/Cli/Arguments/Names.antt =====
-- How a migration argument splits into a name and a value.
use Prim.Native.Char.{code, Char}
use Prim.Native.String.append
use text.Mathlib.TextEquality.{Char-path}
use soroban_upgrades.Base.{
  ℕ, String, Bool, true, false, ◌&&◌, if◌then◌else◌, ◌≡◌, refl, sym, subst, ◌∙◌, ap, ◌↔◌, Option,
  none, some, ◌==◌, ==_iff, Bool-cases, inl, inr, arith,
}
use soroban_upgrades.Base.Text.{◌<>◌, all_chars, is_empty_text, is_ascii_alphanumeric}
use soroban_upgrades.Cli.Arguments.{in_front, split_once, is_name_char, is_argument_name}

-- A name is not empty, and has only letters, digits and underscores.
pub record IsArgumentName (name : String) : Type 0 where
  pub is_nonempty : is_empty_text name ≡ false
  pub has_name_chars : all_chars is_name_char name ≡ true

pub is_argument_name_iff : (name : String) → (is_argument_name name ≡ true) ↔ IsArgumentName name
unfolding is_argument_name
is_argument_name_iff name = (
  λ h. record { is_nonempty = ground arith; has_name_chars = ground arith },
  λ r. ground (arith, r.is_nonempty, r.has_name_chars),
)

abbrev from_some : String × String → Option (String × String) → String × String
from_some d none = d
from_some d (some p) = p

in_front-eq-some :
    (c : Char) (o : Option (String × String)) (name argument : String)
    → in_front c o ≡ some (name, argument)
    → (rest : String) × (o ≡ some (rest, argument)) × (String.◌∷◌ c rest ≡ name)
in_front-eq-some c none name argument h = cc
in_front-eq-some c (some (n, a)) name argument h =
    let e : ◌≡◌ {A = String × String} (String.◌∷◌ c n, a) (name, argument) =
      ap (λ o. from_some (String.◌∷◌ c n, a) o) h in
    (
      n,
      ap (λ z. some (n, z)) (ap (λ (z : String × String). z.1) e),
      ap (λ (z : String × String). z.0) e,
    )

abbrev equals : Char
equals = "="

equals-append : (s : String) → "=" <> s ≡ String.◌∷◌ equals s
equals-append s = append.cons equals "" s ∙ ap (String.◌∷◌ equals) (append.nil s)

-- One round of `split_once`, after the test of its first character.
abbrev split_round : Char → String → Bool → Option (String × String)
split_round c s test = if test then some ("", s) else in_front c (split_once s)

pub split_once-eq-some :
    (s name argument : String)
    → split_once s ≡ some (name, argument)
    → s ≡ name <> ("=" <> argument)
unfolding split_once
split_once-eq-some String.[] name argument h = cc
split_once-eq-some (String.◌∷◌ c s) name argument h = elim (Bool-cases (code c == b'=')) [
  | inl e ↦
      let found =
        ap (from_some ("", s)) (subst (λ b. split_round c s b ≡ some (name, argument)) e h) in
      let first : c ≡ equals = Char-path c equals ((==_iff (code c) b'=').0 e) in
      ap (λ d. String.◌∷◌ d s) first
      ∙ (ap (String.◌∷◌ equals) (ap (λ (z : String × String). z.1) found)
          ∙ (sym (equals-append argument)
              ∙ (sym (append.nil ("=" <> argument))
                  ∙ ap (λ z. z <> ("=" <> argument)) (ap (λ (z : String × String). z.0) found))))
  | inr e ↦
      let (rest, o, q) =
        in_front-eq-some c (split_once s) name argument
          (subst (λ b. split_round c s b ≡ some (name, argument)) e h) in
      ap (String.◌∷◌ c) (split_once-eq-some s rest argument o)
      ∙ (sym (append.cons c rest ("=" <> argument)) ∙ ap (λ z. z <> ("=" <> argument)) q)
]

name_char-not-equals : (c : ℕ) → is_name_char c ≡ true → (c == b'=') ≡ false
unfolding is_name_char is_ascii_alphanumeric
name_char-not-equals c h = ground arith

&&-left : (a b : Bool) → (a && b) ≡ true → a ≡ true
&&-left true b h = refl
&&-left false b h = cc

&&-right : (a b : Bool) → (a && b) ≡ true → b ≡ true
&&-right true b h = h
&&-right false b h = cc

pub split_once-name :
    (name argument : String)
    → all_chars is_name_char name ≡ true
    → split_once (name <> ("=" <> argument)) ≡ some (name, argument)
unfolding split_once
split_once-name String.[] argument h =
    ap split_once (append.nil ("=" <> argument) ∙ equals-append argument)
split_once-name (String.◌∷◌ c s) argument h =
    let miss = name_char-not-equals (code c) (&&-left _ _ h) in
    let rest = split_once-name s argument (&&-right _ _ h) in
    ap split_once (append.cons c s ("=" <> argument))
    ∙ (ap (split_round c (s <> ("=" <> argument))) miss ∙ ap (in_front c) rest)
