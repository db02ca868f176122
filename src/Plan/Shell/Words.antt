-- ===== src/Plan/Shell/Words.antt =====
-- The tokeniser of the quoting rules, on a rendered command.
use Prim.Native.Char.{Char, char, code}
use text.Mathlib.TextEquality.{Char-path}
use Prim.Native.String.append as clauses
use soroban_upgrades.Base.{
  ℕ, String, ◌≡◌, refl, sym, ap, ◌∙◌, inl, inr, Bool, true, false, not, ◌&&◌, ◌||◌, List, [], ◌∷◌,
  map, some, ◌==◌, arith, Bool-cases, ◌<◌, all_below, all_below_sound,
}
use soroban_upgrades.Base.Text.{◌<>◌, join, all_chars, is_empty_text}
use soroban_upgrades.Plan.Shell.Lexer.{
  Class, quote, ordinary, classify, between, bare, single, Lexed, push, close, lex, words_of,
  shell_words,
}
use soroban_upgrades.Plan.Shell.{is_plain, replace_quotes, shell_quote, render_command}

abbrev push_all : String → Lexed → Lexed
push_all String.[] r = r
push_all (String.◌∷◌ c s) r = push c (push_all s r)

abbrev is_ordinary : Class → Bool
is_ordinary ordinary = true
is_ordinary _ = false

plain-lt : (c : ℕ) → is_plain c ≡ true → c < 128
unfolding is_plain
plain-lt c h = ground arith

plain_table : all_below 128 (λ c. not (is_plain c) || is_ordinary (classify c)) ≡ true
unfolding all_below is_plain classify
plain_table = refl

ordinary_of_test : (k : Class) → is_ordinary k ≡ true → k ≡ ordinary
ordinary_of_test k h = ground arith

classify-plain : (c : ℕ) → is_plain c ≡ true → classify c ≡ ordinary
classify-plain c h =
    let test =
      all_below_sound 128 (λ c. not (is_plain c) || is_ordinary (classify c)) c plain_table
        (plain-lt c h) in
    ordinary_of_test (classify c) (ground arith)

classify-quote : (c : ℕ) → (c == b'\'') ≡ true → classify c ≡ quote
unfolding classify
classify-quote c h = ground arith

classify-ne-quote : (c : ℕ) → (c == b'\'') ≡ false → (classify c ≡ quote) → ⊥
unfolding classify
classify-ne-quote c h = ground arith

-- An unquoted run of plain characters is read literally.
lex_plain :
    (v t : String) → all_chars is_plain v ≡ true → lex bare (v <> t) ≡ push_all v (lex bare t)
unfolding lex
lex_plain String.[] t h = rw (clauses.nil t)
lex_plain (String.◌∷◌ c s) t h =
    rw (clauses.cons c s t) (ground (arith, classify-plain (code c), lex_plain s t))

-- The replacement of a quote closes the quotes, puts the quote in double quotes, and opens them.
abbrev tick : Char
tick = char b'\'' tt

abbrev double_tick : Char
double_tick = char b'"' tt

abbrev replaced_quote : String → String
replaced_quote u =
    String.◌∷◌ tick
      (String.◌∷◌ double_tick (String.◌∷◌ tick (String.◌∷◌ double_tick (String.◌∷◌ tick u))))

replaced_quote_lem : (u : String) → ("'\"'\"'" <> u) ≡ replaced_quote u
replaced_quote_lem u =
    rw clauses.cons
      (rw clauses.cons (rw clauses.cons (rw clauses.cons (rw clauses.cons (rw clauses.nil refl)))))

lex-replaced_quote : (u : String) → lex single (replaced_quote u) ≡ push tick (lex single u)
unfolding lex classify
lex-replaced_quote u = refl

quote_char : (c : Char) → (code c == b'\'') ≡ true → c ≡ tick
quote_char c h = Char-path c tick (ground arith)

lex_other :
    (c : Char) (u : String)
    → (code c == b'\'') ≡ false
    → lex single (String.◌∷◌ c u) ≡ push c (lex single u)
unfolding lex classify
lex_other c u h = ground (arith, classify-ne-quote (code c) h)

append_assoc : (s t u : String) → ((s <> t) <> u) ≡ (s <> (t <> u))
append_assoc String.[] t u = rw (clauses.nil t) (rw (clauses.nil (t <> u)) refl)
append_assoc (String.◌∷◌ c s) t u = rw (clauses.cons c s t) (
    rw (clauses.cons c (s <> t) u)
      (rw (clauses.cons c s (t <> u)) (ap (String.◌∷◌ c) (append_assoc s t u))))

closing_tick : (t : String) → ("'" <> t) ≡ String.◌∷◌ tick t
closing_tick t = rw clauses.cons (rw clauses.nil refl)

replace_quotes-empty : replace_quotes "" ≡ ""
unfolding replace_quotes
replace_quotes-empty = refl

replace_quotes-tick :
    (c : Char) (s : String)
    → (code c == b'\'') ≡ true
    → replace_quotes (String.◌∷◌ c s) ≡ replaced_quote (replace_quotes s)
unfolding replace_quotes
replace_quotes-tick c s h = ground (arith, replaced_quote_lem (replace_quotes s))

replace_quotes-other :
    (c : Char) (s : String)
    → (code c == b'\'') ≡ false
    → replace_quotes (String.◌∷◌ c s) ≡ String.◌∷◌ c (replace_quotes s)
unfolding replace_quotes
replace_quotes-other c s h = ground arith

replaced_quote-append : (s u : String) → (replaced_quote s <> u) ≡ replaced_quote (s <> u)
replaced_quote-append s u =
    rw clauses.cons (rw clauses.cons (rw clauses.cons (rw clauses.cons (rw clauses.cons refl))))

lex_closing : (t : String) → lex single (String.◌∷◌ tick t) ≡ lex bare t
unfolding lex classify
lex_closing t = refl

-- A quoted text is read literally.
lex_quoted : (v t : String) → lex single (replace_quotes v <> ("'" <> t)) ≡ push_all v (lex bare t)
lex_quoted String.[] t =
    rw (ap (λ s. lex single (s <> ("'" <> t))) replace_quotes-empty)
      (rw (clauses.nil ("'" <> t)) (rw (closing_tick t) (lex_closing t)))
lex_quoted (String.◌∷◌ c s) t = elim (Bool-cases (code c == b'\'')) [
  | inl h ↦
      let rest = replace_quotes s <> ("'" <> t) in
      ap (λ r. lex single (r <> ("'" <> t))) (replace_quotes-tick c s h)
      ∙ (ap (lex single) (replaced_quote-append (replace_quotes s) ("'" <> t))
          ∙ (lex-replaced_quote rest
              ∙ (ap (push tick) (lex_quoted s t)
                  ∙ ap (λ d. push d (push_all s (lex bare t))) (sym (quote_char c h)))))
  | inr h ↦
      let rest = replace_quotes s <> ("'" <> t) in
      ap (λ r. lex single (r <> ("'" <> t))) (replace_quotes-other c s h)
      ∙ (ap (lex single) (clauses.cons c (replace_quotes s) ("'" <> t))
          ∙ (lex_other c rest h ∙ ap (push c) (lex_quoted s t)))
]

push_all_lem : (v : String) (ws : List String) → push_all v (some ("", ws)) ≡ some (v, ws)
push_all_lem String.[] ws = refl
push_all_lem (String.◌∷◌ c s) ws = ap (push c) (push_all_lem s ws)

append_nil : (s : String) → (s <> "") ≡ s
append_nil String.[] = rw (clauses.nil "") refl
append_nil (String.◌∷◌ c s) = rw (clauses.cons c s "") (ap (String.◌∷◌ c) (append_nil s))

lex-between_plain :
    (c : Char) (u : String)
    → is_plain (code c) ≡ true
    → lex between (String.◌∷◌ c u) ≡ close (push c (lex bare u))
unfolding lex
lex-between_plain c u h = ground (arith, classify-plain (code c) h)

lex-between_tick : (u : String) → lex between (String.◌∷◌ tick u) ≡ close (lex single u)
unfolding lex classify
lex-between_tick u = refl

lex-bare_space : (u : String) → lex bare (" " <> u) ≡ lex between u
unfolding lex classify
lex-bare_space u = rw clauses.cons (rw clauses.nil refl)

lex-bare_end : lex bare "" ≡ some ("", [])
unfolding lex
lex-bare_end = refl

module _ (t : String) (ws : List String) (ends : lex bare t ≡ some ("", ws)) where
  -- A word of plain characters is that word.
  lex_plain_word :
      (v : String)
      → is_empty_text v ≡ false
      → all_chars is_plain v ≡ true
      → lex between (v <> t) ≡ some ("", v ∷ ws)
  lex_plain_word String.[] full plain = cc
  lex_plain_word (String.◌∷◌ c s) full plain =
      ap (lex between) (clauses.cons c s t)
      ∙ (lex-between_plain c (s <> t) (ground arith)
          ∙ (ap (λ r. close (push c r)) (lex_plain s t (ground arith))
              ∙ (ap (λ r. close (push c (push_all s r))) ends
                  ∙ ap (λ r. close (push c r)) (push_all_lem s ws))))

  lex_quoted_word :
      (v : String) → lex between (("'" <> (replace_quotes v <> "'")) <> t) ≡ some ("", v ∷ ws)
  lex_quoted_word v =
      ap (lex between) (
        append_assoc "'" (replace_quotes v <> "'") t
        ∙ (closing_tick ((replace_quotes v <> "'") <> t)
            ∙ ap (String.◌∷◌ tick) (append_assoc (replace_quotes v) "'" t)))
      ∙ (lex-between_tick (replace_quotes v <> ("'" <> t))
          ∙ (ap close (lex_quoted v t)
              ∙ (ap (λ r. close (push_all v r)) ends ∙ ap close (push_all_lem v ws))))

  -- A quoted argument is one word, which is the argument.
  lex-shell_quote : (v : String) → lex between (shell_quote v <> t) ≡ some ("", v ∷ ws)
  unfolding shell_quote
  lex-shell_quote v = elim (Bool-cases (not (is_empty_text v) && all_chars is_plain v)) [
    | inl h ↦ rw h (lex_plain_word v (ground arith) (ground arith))
    | inr h ↦ rw h (lex_quoted_word v)
  ]

lex_rendered :
    (v : String) (rest : List String)
    → lex between (join " " (map shell_quote (v ∷ rest))) ≡ some ("", v ∷ rest)
unfolding join
lex_rendered v [] =
    ap (lex between) (sym (append_nil (shell_quote v))) ∙ lex-shell_quote "" [] lex-bare_end v
lex_rendered v (w ∷ rest) =
    lex-shell_quote (" " <> join " " (map shell_quote (w ∷ rest))) (w ∷ rest)
      (lex-bare_space (join " " (map shell_quote (w ∷ rest))) ∙ lex_rendered w rest) v

-- For every program and all arguments, the tokeniser `shell_words` reads the rendered command as
-- exactly the program followed by the arguments.
pub shell_words-render_command :
    (program : String) (arguments : List String)
    → shell_words (render_command program arguments) ≡ some (program ∷ arguments)
unfolding render_command shell_words
shell_words-render_command program arguments = ap words_of (lex_rendered program arguments)
