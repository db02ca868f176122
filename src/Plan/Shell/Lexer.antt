-- ===== src/Plan/Shell/Lexer.antt =====
-- A tokeniser for the quoting rules of a POSIX shell. It splits a text into words and removes quotes,
-- and no more: what a shell makes of an unquoted first word, such as an assignment or a reserved
-- word, is not in it.
use Prim.Native.Char.{Char, code}
use soroban_upgrades.Base.{
  ℕ, String, Bool, ◌||◌, List, [], ◌∷◌, Option, none, some, ◌==◌, if◌then◌else◌, ◌≡◌, refl,
}

-- What a character is to the shell's tokeniser. `expands` is what the shell would replace or
-- interpret in double quotes too, and `special` what it would outside quotes.
pub data Class : Type 0 where
  space quote double_quote expands special ordinary : Class

abbrev pub is_expanding : ℕ → Bool
is_expanding c = c == b'$' || c == b'`' || c == b'\\'

-- `|&;<>()`, the pattern characters, `#`, `~`, `%`, `!`, the braces and the other blanks
abbrev pub is_special : ℕ → Bool
is_special c =
    c == b'|'
    || c == b'&'
    || c == b';'
    || c == b'<'
    || c == b'>'
    || c == b'('
    || c == b')'
    || c == b'*'
    || c == b'?'
    || c == b'['
    || c == b']'
    || c == b'#'
    || c == b'~'
    || c == b'%'
    || c == b'!'
    || c == b'{'
    || c == b'}'
    || c == 9
    || c == 10
    || c == 13

unfoldable pub classify : ℕ → Class
classify c =
    if c == b' '
    then space
    else if c == b'\''
    then quote
    else if c == b'"'
    then double_quote
    else if is_expanding c
    then expands
    else if is_special c
    then special
    else ordinary

pub data Mode : Type 0 where
  between bare single double : Mode

-- The rest of the word at hand, and the words after it.
abbrev pub Lexed : Type 0
Lexed = Option (String × List String)

abbrev pub push : Char → Lexed → Lexed
push c none = none
push c (some (w, ws)) = some (String.◌∷◌ c w, ws)

abbrev pub close : Lexed → Lexed
close none = none
close (some (w, ws)) = some ("", w ∷ ws)

-- It refuses an open quote, and a character of the classes `expands` and `special` where no quotes
-- keep it.
unfoldable pub lex : Mode → String → Lexed
lex between String.[] = some ("", [])
lex between (String.◌∷◌ c s) = elim (classify (code c)) [
  | space ↦ lex between s
  | quote ↦ close (lex single s)
  | double_quote ↦ close (lex double s)
  | ordinary ↦ close (push c (lex bare s))
  | _ ↦ none
]
lex bare String.[] = some ("", [])
lex bare (String.◌∷◌ c s) = elim (classify (code c)) [
  | space ↦ lex between s
  | quote ↦ lex single s
  | double_quote ↦ lex double s
  | ordinary ↦ push c (lex bare s)
  | _ ↦ none
]
lex single String.[] = none
lex single (String.◌∷◌ c s) = elim (classify (code c)) [
  | quote ↦ lex bare s
  | _ ↦ push c (lex single s)
]
lex double String.[] = none
lex double (String.◌∷◌ c s) = elim (classify (code c)) [
  | double_quote ↦ lex bare s
  | expands ↦ none
  | _ ↦ push c (lex double s)
]

abbrev pub words_of : Lexed → Option (List String)
words_of none = none
words_of (some (w, ws)) = some ws

-- The words of a command line.
unfoldable pub shell_words : String → Option (List String)
unfolding lex classify
shell_words s = words_of (lex between s)

sample : shell_words "a  'b c'd \"e'f\" ''" ≡ some ("a" ∷ "b cd" ∷ "e'f" ∷ "" ∷ [])
unfolding shell_words
sample = refl
