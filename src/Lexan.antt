-- ===== src/Lexan.antt =====
-- xinu-fall2022-paging/shell/lexan.c and the constants of include/shell.h: the division of a command line
-- into tokens. The line is a list of characters; behind it stands a NULLCH.
pub mod Bounds
pub mod RoundTrip
use virtual_memory_xinu_f.Base.{
  ℕ, zero, suc, ◌+◌, ◌≤◌, Bool, true, false, ◌&&◌, ◌||◌, not, Option, none, some, List, [], ◌∷◌,
  ◌++◌, length, leb, ◌==◌, if◌then◌else◌,
}

-- SHELL_MAXTOK.
abbrev pub shell_maxtok : ℕ
shell_maxtok = 32

-- SH_NEWLINE and NULLCH; SH_AMPER, SH_BLANK, SH_TAB, SH_SQUOTE, SH_DQUOTE, SH_LESS and SH_GREATER.
abbrev pub is_end : ℕ → Bool
is_end c = (c == 10) || (c == 0)

abbrev pub is_blank : ℕ → Bool
is_blank c = (c == 32) || (c == 9)

abbrev pub is_quote : ℕ → Bool
is_quote c = (c == 39) || (c == 34)

abbrev pub is_redirection : ℕ → Bool
is_redirection c = (c == 60) || (c == 62)

-- SH_TOK_AMPER, SH_TOK_LESS, SH_TOK_GREATER and SH_TOK_OTHER.
pub data TokType : Type 0 where
  amper less greater other : TokType

-- What is written to `tok` and `toktyp`, entry by entry, and to `tokbuf`.
pub record Lexed : Type 0 where
  pub tok : List (ℕ × TokType)
  pub tokbuf : List ℕ

-- A token of the type `t` with the text `s`, which a null follows.
abbrev pub add_token : TokType → List ℕ → Lexed → Lexed
add_token t s l = record {
  tok = l.tok ++ (length l.tokbuf, t) ∷ [];
  tokbuf = l.tokbuf ++ (s ++ 0 ∷ []);
}

-- The single characters that are tokens.
abbrev pub single : ℕ → Option TokType
single c =
    if c == 38
    then some amper
    else if c == 60
    then some less
    else if c == 62
    then some greater
    else none

unfoldable pub skip_blanks : List ℕ → List ℕ
skip_blanks [] = []
skip_blanks (c ∷ cs) = if is_blank c then skip_blanks cs else c ∷ cs

abbrev pub prepend : ℕ → Option (List ℕ × List ℕ) → Option (List ℕ × List ℕ)
prepend c none = none
prepend c (some (s, rest)) = some (c ∷ s, rest)

-- The text up to the closing quote, and what follows it; `none` when the line ends before it.
unfoldable pub quoted : ℕ → List ℕ → Option (List ℕ × List ℕ)
quoted q [] = none
quoted q (c ∷ cs) =
    if c == q then some ([], cs) else if is_end c then none else prepend c (quoted q cs)

-- What ends a token that is not quoted.
abbrev pub is_stop : ℕ → Bool
is_stop c = is_end c || (is_redirection c || (is_blank c || ((c == 38) || is_quote c)))

unfoldable pub word_rest : List ℕ → List ℕ × List ℕ
word_rest [] = ([], [])
word_rest (c ∷ cs) =
    let (s, rest) = word_rest cs in if is_stop c then ([], c ∷ cs) else (c ∷ s, rest)

-- What is found behind the blanks.
pub data Found : Type 0 where
  finish : Found
  error : Found
  token : TokType → List ℕ → List ℕ → Found

abbrev pub of_quoted : Option (List ℕ × List ℕ) → Found
of_quoted none = error
of_quoted (some (s, rest)) = token other s rest

-- Another token must not be appended to a word.
abbrev pub of_word : ℕ → List ℕ × List ℕ → Found
of_word c (s, []) = token other (c ∷ s) []
of_word c (s, d ∷ rest) =
    if is_quote d || is_redirection d then error else token other (c ∷ s) (d ∷ rest)

abbrev pub of_single : ℕ → List ℕ → Option TokType → Found
of_single c cs (some t) = token t (c ∷ []) cs
of_single c cs none = if is_quote c then of_quoted (quoted c cs) else of_word c (word_rest cs)

unfoldable pub find_token : List ℕ → Found
unfolding quoted word_rest
find_token [] = finish
find_token (c ∷ cs) = if is_end c then finish else of_single c cs (single c)

abbrev pub at_end : List ℕ → Bool
at_end [] = true
at_end (c ∷ cs) = is_end c

-- SYSERR is the inner `none`: the caller then uses neither the tokens nor the buffer. Without fuel
-- there is no result.
abbrev pub after_found :
    (List ℕ → Lexed → Option (Option Lexed)) → Lexed → Found → Option (Option Lexed)
after_found further l finish = some (some l)
after_found further l error = some none
after_found further l (token t s rest) = further rest (add_token t s l)

-- The loop, on fuel.
unfoldable pub lex_from : ℕ → List ℕ → Lexed → Option (Option Lexed)
unfolding skip_blanks find_token
lex_from zero p l = none
lex_from (suc fuel) p l =
    let rest = after_found (lex_from fuel) l (find_token (skip_blanks p)) in
    if at_end p then some (some l) else if leb shell_maxtok (length l.tok) then some none else rest

-- The number of tokens and `tlen` are the lengths of the two lists.
unfoldable pub lexan : List ℕ → Option (Option Lexed)
unfolding lex_from
lexan line = lex_from (suc (length line)) line (record { tok = []; tokbuf = [] })
