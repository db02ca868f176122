-- ===== src/Plan/Shell.antt =====
-- `shell_quote` and `render_command`: the text of a step's command.
pub mod Lexer
pub mod Words
use Prim.Native.Char.{code}
use Prim.Native.String
use soroban_upgrades.Base.{
  ℕ, String, ◌≡◌, refl, Bool, not, ◌&&◌, ◌||◌, List, [], ◌∷◌, map, ◌==◌, if◌then◌else◌,
}
use soroban_upgrades.Base.Text.{
  ◌<>◌, join, all_chars, is_empty_text, is_ascii_alphanumeric, contains_char,
}

-- A character that needs no quotes.
unfoldable pub is_plain : ℕ → Bool
unfolding is_ascii_alphanumeric contains_char
is_plain c = is_ascii_alphanumeric c || contains_char c "_+-./:=@"

-- `value.replace('\'', "'\"'\"'")`
unfoldable pub replace_quotes : String → String
replace_quotes String.[] = ""
replace_quotes (String.◌∷◌ c s) =
    let rest = replace_quotes s in if code c == b'\'' then "'\"'\"'" <> rest else String.◌∷◌ c rest

unfoldable pub shell_quote : String → String
unfolding is_plain replace_quotes
shell_quote value =
    if not (is_empty_text value) && all_chars is_plain value
    then value
    else "'" <> replace_quotes value <> "'"

unfoldable pub render_command : (program : String) → (arguments : List String) → String
unfolding shell_quote join
render_command program arguments = join " " (map shell_quote (program ∷ arguments))

quoted : render_command "echo" ("a b" ∷ "it's" ∷ "x=1" ∷ []) ≡ "echo 'a b' 'it'\"'\"'s' x=1"
unfolding render_command
quoted = refl
