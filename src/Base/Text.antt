-- ===== src/Base/Text.antt =====
-- The methods of `str`, `String` and `char` that the program calls, and `format!`'s decimal numbers.
use Prim.Native.Char.{code}
use Prim.Native.String.{slice}
pub use Prim.Native.String.{◌++◌, len}
use soroban_upgrades.Base.{
  ℕ, zero, suc, ◌+◌, ◌*◌, ◌/◌, ◌%◌, String, ◌≡◌, refl, Bool, true, false, ◌||◌, ◌&&◌, not, List, [],
  ◌∷◌, ltb, leb, ◌==◌, if◌then◌else◌, Option, none, some,
}
use soroban_upgrades.Base as Base

-- The concatenation of texts, beside that of lists.
infixr 65 ◌<>◌
abbrev pub ◌<>◌ : String → String → String
s <> t = ◌++◌ s t

-- `value.chars().any(p)` and `value.chars().all(p)`; a character is its scalar value.
abbrev pub any_char : (ℕ → Bool) → String → Bool
any_char p String.[] = false
any_char p (String.◌∷◌ c s) = p (code c) || any_char p s

abbrev pub all_chars : (ℕ → Bool) → String → Bool
all_chars p String.[] = true
all_chars p (String.◌∷◌ c s) = p (code c) && all_chars p s

-- `str::is_empty`
abbrev pub is_empty_text : String → Bool
is_empty_text String.[] = true
is_empty_text (String.◌∷◌ c s) = false

-- `char::is_control`: the general category Cc.
unfoldable pub is_control : ℕ → Bool
is_control c = leb c 31 || (leb 127 c && leb c 159)

-- `char::is_whitespace`: the property White_Space.
unfoldable pub is_whitespace : ℕ → Bool
is_whitespace c =
    (leb 9 c && leb c 13)
    || c == 32
    || c == 133
    || c == 160
    || c == 5760
    || (leb 8192 c && leb c 8202)
    || c == 8232
    || c == 8233
    || c == 8239
    || c == 8287
    || c == 12288

-- `char::is_ascii_alphanumeric`
unfoldable pub is_ascii_alphanumeric : ℕ → Bool
is_ascii_alphanumeric c =
    (leb b'0' c && leb c b'9') || (leb b'A' c && leb c b'Z') || (leb b'a' c && leb c b'z')

-- `value.trim().is_empty()`: nothing is left where every character is whitespace.
unfoldable pub is_blank : String → Bool
unfolding is_whitespace
is_blank s = all_chars is_whitespace s

-- `str::contains` of a character
unfoldable pub contains_char : ℕ → String → Bool
contains_char c s = any_char (λ d. d == c) s

-- The UTF-8 encoding of a scalar value, and `str::as_bytes`.
unfoldable pub encode_utf8 : ℕ → List ℕ
encode_utf8 c =
    if ltb c 128
    then c ∷ []
    else if ltb c 2048
    then (192 + c / 64) ∷ (128 + c % 64) ∷ []
    else if ltb c 65536
    then (224 + c / 4096) ∷ (128 + c / 64 % 64) ∷ (128 + c % 64) ∷ []
    else (240 + c / 262144) ∷ (128 + c / 4096 % 64) ∷ (128 + c / 64 % 64) ∷ (128 + c % 64) ∷ []

unfoldable pub as_bytes : String → List ℕ
unfolding encode_utf8
as_bytes String.[] = []
as_bytes (String.◌∷◌ c s) = Base.◌++◌ (encode_utf8 (code c)) (as_bytes s)

-- The decimal digits of a number, for `{}` at an unsigned integer. A number has no more digits than
-- its value has units, so the number itself is fuel enough.
digit : ℕ → String
digit d = slice "0123456789" d (d + 1)

decimal : ℕ → ℕ → String
unfolding digit
decimal zero n = digit n
decimal (suc fuel) n =
    let rest = decimal fuel (n / 10) in if ltb n 10 then digit n else rest ++ digit (n % 10)

unfoldable pub show : ℕ → String
unfolding decimal
show n = decimal n n

-- `[String]::join`
unfoldable pub join : String → List String → String
join sep [] = ""
join sep (x ∷ []) = x
join sep (x ∷ y ∷ r) = x ++ sep ++ join sep (y ∷ r)

show_runs : show 10240 ≡ "10240"
unfolding show
show_runs = refl

join_runs : join ", " ("a" ∷ "b" ∷ "c" ∷ []) ≡ "a, b, c"
unfolding join
join_runs = refl
