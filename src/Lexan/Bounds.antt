-- ===== src/Lexan/Bounds.antt =====
-- The division of a line ends, and fits in the shell's buffers.
use virtual_memory_xinu_f.Base.{
  ℕ, zero, suc, ◌+◌, ◌≤◌, ◌<◌, ◌≡◌, refl, ◌||◌, Option, none, some, List, [], ◌∷◌, ◌++◌, length,
  length-append, arith, leb, ◌==◌, Bool-cases, ◌⊎◌, inl, inr,
}
use virtual_memory_xinu_f.Lexan.{
  Found, finish, error, token, TokType, Lexed, add_token, skip_blanks, quoted, word_rest,
  find_token, of_single, of_quoted, of_word, single, is_quote, is_end, at_end, after_found,
  lex_from, lexan, shell_maxtok, is_redirection, prepend,
}

length-skip_blanks : (p : List ℕ) → length (skip_blanks p) ≤ length p
unfolding skip_blanks
length-skip_blanks [] = omega arith
length-skip_blanks (c ∷ cs) = ground (arith, length-skip_blanks cs)

length-word_rest : (cs : List ℕ) → length (word_rest cs).0 + length (word_rest cs).1 ≤ length cs
unfolding word_rest
length-word_rest [] = omega arith
length-word_rest (c ∷ cs) = ground (arith, length-word_rest cs)

-- A quoted text and what follows it are shorter than the line.
abbrev Shorter : List ℕ → Option (List ℕ × List ℕ) → Type 0
Shorter cs none = Unit {0}
Shorter cs (some (s, rest)) = length s + length rest < length cs

Shorter-prepend :
    (c : ℕ) (cs : List ℕ) (r : Option (List ℕ × List ℕ))
    → Shorter cs r
    → Shorter (c ∷ cs) (prepend c r)
Shorter-prepend c cs none h = tt
Shorter-prepend c cs (some (s, rest)) h = omega arith

quoted-Shorter : (q : ℕ) (cs : List ℕ) → Shorter cs (quoted q cs)
unfolding quoted
quoted-Shorter q [] = tt
quoted-Shorter q (c ∷ cs) = elim (Bool-cases (c == q)) [
  | inl closes ↦ rw closes (omega arith)
  | inr open_yet ↦ elim (Bool-cases (is_end c)) [
    | inl ends ↦ rw (open_yet, ends) tt
    | inr goes_on ↦
        rw (open_yet, goes_on) (Shorter-prepend c cs (quoted q cs) (quoted-Shorter q cs))
  ]
]

-- What is taken of the line.
abbrev pub Within : List ℕ → Found → Type 0
Within p finish = Unit {0}
Within p error = Unit {0}
Within p (token t s rest) = (length s + length rest ≤ length p) × (length rest < length p)

of_quoted-Within :
    (c : ℕ) (cs : List ℕ) (r : Option (List ℕ × List ℕ))
    → Shorter cs r
    → Within (c ∷ cs) (of_quoted r)
of_quoted-Within c cs none h = tt
of_quoted-Within c cs (some (s, rest)) h = (omega arith, omega arith)

of_word-Within :
    (c : ℕ) (cs : List ℕ) (r : List ℕ × List ℕ)
    → length r.0 + length r.1 ≤ length cs
    → Within (c ∷ cs) (of_word c r)
of_word-Within c cs (s, []) h = (omega arith, omega arith)
of_word-Within c cs (s, d ∷ rest) h = elim (Bool-cases (is_quote d || is_redirection d)) [
  | inl refused ↦ rw refused tt
  | inr accepted ↦ rw accepted (omega arith, omega arith)
]

of_single-Within : (c : ℕ) (cs : List ℕ) (t : Option TokType) → Within (c ∷ cs) (of_single c cs t)
of_single-Within c cs (some t) = (omega arith, omega arith)
of_single-Within c cs none = elim (Bool-cases (is_quote c)) [
  | inl q ↦ rw q (of_quoted-Within c cs (quoted c cs) (quoted-Shorter c cs))
  | inr w ↦ rw w (of_word-Within c cs (word_rest cs) (length-word_rest cs))
]

find_token-Within : (p : List ℕ) → Within p (find_token p)
unfolding find_token
find_token-Within [] = tt
find_token-Within (c ∷ cs) = elim (Bool-cases (is_end c)) [
  | inl ends ↦ rw ends tt
  | inr goes_on ↦ rw goes_on (of_single-Within c cs (single c))
]

-- From `l` on, `n` characters of the line divide into at most as many bytes, and a null for each token.
abbrev Fits : ℕ → Lexed → Option (Option Lexed) → Type 0
Fits n l none = ⊥
Fits n l (some none) = Unit {0}
Fits n l (some (some l')) =
    (length l'.tokbuf + length l.tok ≤ length l.tokbuf + length l'.tok + n)
    × (length l'.tok ≤ shell_maxtok)

Fits-add_token :
    (n k : ℕ) (t : TokType) (s : List ℕ) (l : Lexed) (r : Option (Option Lexed))
    → length s + k ≤ n
    → Fits k (add_token t s l) r
    → Fits n l r
Fits-add_token n k t s l none h f = f
Fits-add_token n k t s l (some none) h f = tt
Fits-add_token n k t s l (some (some l')) h f = (
  omega (
    arith,
    f.0,
    length-append l.tok ((length l.tokbuf, t) ∷ []),
    length-append l.tokbuf (s ++ 0 ∷ []),
    length-append s (0 ∷ []),
  ),
  f.1,
)

returned :
    (n : ℕ) (r : Option (Option Lexed))
    → Fits n (record { tok = []; tokbuf = [] }) r
    → (r ≡ some none)
      ⊎ ((l : Lexed) × (r ≡ some (some l))
          × (length l.tok ≤ shell_maxtok)
          × (length l.tokbuf ≤ n + shell_maxtok))
returned n none f = absurd f
returned n (some none) f = inl refl
returned n (some (some l)) f = inr (l, refl, f.1, omega (arith, f.0, f.1))

after_found-Fits :
    (n : ℕ) (q : List ℕ) (l : Lexed) (further : List ℕ → Lexed → Option (Option Lexed)) (f : Found)
    → ((p : List ℕ) (l' : Lexed)
        → length p < n
        → length l'.tok ≤ shell_maxtok
        → Fits (length p) l' (further p l'))
    → Within q f
    → length q ≤ n
    → length l.tok < shell_maxtok
    → Fits n l (after_found further l f)
after_found-Fits n q l further finish ih w h k = (omega arith, omega arith)
after_found-Fits n q l further error ih w h k = tt
after_found-Fits n q l further (token t s rest) ih w h k =
    Fits-add_token n (length rest) t s l (further rest (add_token t s l)) (omega (arith, w.0)) (
      ih rest (add_token t s l) (omega (arith, w.1))
        (omega (arith, length-append l.tok ((length l.tokbuf, t) ∷ []))))

lex_from-Fits :
    (fuel : ℕ) (p : List ℕ) (l : Lexed)
    → length p < fuel
    → length l.tok ≤ shell_maxtok
    → Fits (length p) l (lex_from fuel p l)
unfolding lex_from
lex_from-Fits zero p l h k = absurd (omega arith)
lex_from-Fits (suc fuel) p l h k = elim (Bool-cases (at_end p)) [
  | inl ends ↦ rw ends (omega arith, omega arith)
  | inr goes_on ↦ elim (Bool-cases (leb shell_maxtok (length l.tok))) [
    | inl full ↦ rw (goes_on, full) tt
    | inr room ↦
        rw (goes_on, room)
          (after_found-Fits (length p) (skip_blanks p) l (lex_from fuel)
            (find_token (skip_blanks p)) (λ p' l' s few. lex_from-Fits fuel p' l' (omega arith) few)
            (find_token-Within (skip_blanks p)) (length-skip_blanks p) (ground arith))
  ]
]

-- `lexan` always returns, and when it reports no error it has found at most SHELL_MAXTOK tokens, and
-- the bytes that it has written to the token buffer are at most the line's length and SHELL_MAXTOK: with
-- a line of at most SHELL_BUFLEN characters they fit in the SHELL_ARGLEN bytes that the shell gives it.
pub lexan_bounds :
    (line : List ℕ)
    → (lexan line ≡ some none)
      ⊎ ((l : Lexed) × (lexan line ≡ some (some l))
          × (length l.tok ≤ shell_maxtok)
          × (length l.tokbuf ≤ length line + shell_maxtok))
unfolding lexan
lexan_bounds line = returned (length line) (lexan line) (
    lex_from-Fits (suc (length line)) line (record { tok = []; tokbuf = [] }) (omega arith)
      (omega arith))
