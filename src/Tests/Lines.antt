-- ===== src/Tests/Lines.antt =====
-- The theorems on command lines at some tokens.
use virtual_memory_xinu_f.Base.{◌+◌, ◌≤◌, ◌≡◌, refl, some, none, List, [], ◌∷◌, ◌⊎◌, length, arith}
use virtual_memory_xinu_f.Lexan.{Lexed, amper, other, lexan, shell_maxtok}
use virtual_memory_xinu_f.Lexan.Bounds.{lexan_bounds}
use virtual_memory_xinu_f.Lexan.RoundTrip.{
  Token, ampersand, less_than, word, string, print, entries_from, texts, lexan-print,
}

-- ` ls <"a b" &`
abbrev tokens : List Token
tokens = word 108 (115 ∷ []) ∷ less_than ∷ string 34 (97 ∷ 32 ∷ 98 ∷ []) ∷ ampersand ∷ []

lexan-print_example :
    lexan (print tokens)
    ≡ some (some (record { tok = entries_from 0 tokens; tokbuf = texts tokens }))
lexan-print_example =
    lexan-print tokens ((refl, (refl, tt)), (tt, ((refl, (refl, (refl, (refl, tt)))), (tt, tt))))
      (omega arith)

lexan_bounds_example :
    (lexan (print tokens) ≡ some none)
    ⊎ ((l : Lexed) × (lexan (print tokens) ≡ some (some l))
        × (length l.tok ≤ shell_maxtok)
        × (length l.tokbuf ≤ length (print tokens) + shell_maxtok))
lexan_bounds_example = lexan_bounds (print tokens)

-- An ampersand may be appended to a word, a redirection may not.
appended :
    lexan (97 ∷ 38 ∷ 10 ∷ [])
    ≡ some (some (record { tok = (0, other) ∷ (2, amper) ∷ []; tokbuf = 97 ∷ 0 ∷ 38 ∷ 0 ∷ [] }))
unfolding lexan
appended = refl

refused : lexan (97 ∷ 60 ∷ 10 ∷ []) ≡ some none
unfolding lexan
refused = refl
