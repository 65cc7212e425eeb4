-- ===== src/Lexan/RoundTrip.antt =====
-- Lines that are written from tokens.
use virtual_memory_xinu_f.Base.{
  ℕ, zero, suc, ◌+◌, ◌≤◌, ◌<◌, ◌≡◌, refl, Bool, true, false, ◌||◌, none, some, List, [], ◌∷◌, ◌++◌,
  length, length-append, append_nil, append_assoc, arith, ap, sym, ◌∙◌, leb, ◌==◌,
}
use virtual_memory_xinu_f.Lexan.{
  token, TokType, amper, less, greater, other, Lexed, add_token, skip_blanks, quoted, word_rest,
  find_token, of_word, single, is_quote, is_end, is_stop, lex_from, lexan, shell_maxtok, is_blank,
}

-- The tokens of a line: the three single characters, words, and texts in the quotes `q`.
pub data Token : Type 0 where
  ampersand less_than greater_than : Token
  word : ℕ → List ℕ → Token
  string : ℕ → List ℕ → Token

abbrev pub AllBut : (ℕ → Bool) → List ℕ → Type 0
AllBut stop [] = Unit {0}
AllBut stop (c ∷ cs) = (stop c ≡ false) × AllBut stop cs

-- A word has no character that ends it, a text in quotes not the same quote and no end of the line.
abbrev pub IsToken : Token → Type 0
IsToken ampersand = Unit {0}
IsToken less_than = Unit {0}
IsToken greater_than = Unit {0}
IsToken (word c s) = AllBut is_stop (c ∷ s)
IsToken (string q s) = (is_quote q ≡ true) × AllBut (λ c. (c == q) || is_end c) s

abbrev pub AllTokens : List Token → Type 0
AllTokens [] = Unit {0}
AllTokens (t ∷ ts) = IsToken t × AllTokens ts

abbrev pub put : Token → List ℕ → List ℕ
put ampersand rest = 38 ∷ rest
put less_than rest = 60 ∷ rest
put greater_than rest = 62 ∷ rest
put (word c s) rest = c ∷ (s ++ rest)
put (string q s) rest = q ∷ (s ++ q ∷ rest)

-- A blank in front of each token, and a newline.
abbrev pub print : List Token → List ℕ
print [] = 10 ∷ []
print (t ∷ ts) = 32 ∷ put t (print ts)

abbrev pub type_of : Token → TokType
type_of ampersand = amper
type_of less_than = less
type_of greater_than = greater
type_of (word c s) = other
type_of (string q s) = other

abbrev pub text_of : Token → List ℕ
text_of ampersand = 38 ∷ []
text_of less_than = 60 ∷ []
text_of greater_than = 62 ∷ []
text_of (word c s) = c ∷ s
text_of (string q s) = s

-- The entries of the tokens when the text of the first starts at `i`, and the texts in the buffer.
abbrev pub entries_from : ℕ → List Token → List (ℕ × TokType)
entries_from i [] = []
entries_from i (t ∷ ts) = (i, type_of t) ∷ entries_from (i + suc (length (text_of t))) ts

abbrev pub texts : List Token → List ℕ
texts [] = []
texts (t ∷ ts) = text_of t ++ 0 ∷ texts ts

-- Tokens that are added behind those found before.
abbrev with_tokens : List Token → Lexed → Lexed
with_tokens ts l = record {
  tok = l.tok ++ entries_from (length l.tokbuf) ts;
  tokbuf = l.tokbuf ++ texts ts;
}

same_parts :
    (x x' : List (ℕ × TokType)) (y y' : List ℕ)
    → x ≡ x'
    → y ≡ y'
    → ◌≡◌ {A = Lexed} (record { tok = x; tokbuf = y }) (record { tok = x'; tokbuf = y' })
same_parts x x' y y' e d = cc

no_tokens : (l : Lexed) → with_tokens [] l ≡ l
no_tokens l = same_parts _ l.tok _ l.tokbuf (append_nil l.tok) (append_nil l.tokbuf)

add_token-first :
    (t : Token) (ts : List Token) (l : Lexed)
    → with_tokens ts (add_token (type_of t) (text_of t) l) ≡ with_tokens (t ∷ ts) l
add_token-first t ts l =
    let s = text_of t in
    let entry : ℕ × TokType = (length l.tokbuf, type_of t) in
    let place : length (l.tokbuf ++ (s ++ 0 ∷ [])) ≡ length l.tokbuf + suc (length s) =
      omega (arith, length-append l.tokbuf (s ++ 0 ∷ []), length-append s (0 ∷ [])) in
    same_parts _ _ _ _
      (append_assoc l.tok (entry ∷ []) (entries_from (length (l.tokbuf ++ (s ++ 0 ∷ []))) ts)
        ∙ ap (λ i. l.tok ++ entry ∷ entries_from i ts) place)
      (append_assoc l.tokbuf (s ++ 0 ∷ []) (texts ts)
        ∙ ap (λ r. l.tokbuf ++ r) (append_assoc s (0 ∷ []) (texts ts)))

word_rest-print :
    (s : List ℕ) (ts : List Token) → AllBut is_stop s → word_rest (s ++ print ts) ≡ (s, print ts)
unfolding word_rest
word_rest-print [] [] h = refl
word_rest-print [] (t ∷ ts) h = refl
word_rest-print (c ∷ s) ts h = rw (h.0, word_rest-print s ts h.1)

of_word-print :
    (c : ℕ) (s : List ℕ) (ts : List Token)
    → of_word c (s, print ts) ≡ token other (c ∷ s) (print ts)
of_word-print c s [] = refl
of_word-print c s (t ∷ ts) = refl

quoted-append :
    (q : ℕ) (s rest : List ℕ)
    → AllBut (λ c. (c == q) || is_end c) s
    → quoted q (s ++ q ∷ rest) ≡ some (s, rest)
unfolding quoted
quoted-append q [] rest h = ground arith
quoted-append q (c ∷ s) rest h = ground (arith, h.0, quoted-append q s rest)

plain_char :
    (c : ℕ)
    → is_stop c ≡ false
    → (is_blank c ≡ false) × (is_end c ≡ false) × (is_quote c ≡ false) × (single c ≡ none)
plain_char c h = (ground arith, ground arith, ground arith, ground arith)

quote_char :
    (q : ℕ) → is_quote q ≡ true → (is_blank q ≡ false) × (is_end q ≡ false) × (single q ≡ none)
quote_char q h = (ground arith, ground arith, ground arith)

find-put :
    (t : Token) (ts : List Token)
    → IsToken t
    → find_token (skip_blanks (print (t ∷ ts))) ≡ token (type_of t) (text_of t) (print ts)
unfolding find_token skip_blanks
find-put ampersand ts h = refl
find-put less_than ts h = refl
find-put greater_than ts h = refl
find-put (word c s) ts h =
    let (blank, end, quote, lone) = plain_char c h.0 in
    rw (blank, end, lone, quote, word_rest-print s ts h.1) (of_word-print c s ts)
find-put (string q s) ts h =
    let (blank, end, lone) = quote_char q h.0 in
    rw (blank, end, lone, h.0, quoted-append q s (print ts) h.1)

length-print : (ts : List Token) → length ts < length (print ts)
length-print [] = omega arith
length-print (ampersand ∷ ts) = omega (arith, length-print ts)
length-print (less_than ∷ ts) = omega (arith, length-print ts)
length-print (greater_than ∷ ts) = omega (arith, length-print ts)
length-print (word c s ∷ ts) = omega (arith, length-print ts, length-append s (print ts))
length-print (string q s ∷ ts) = omega (arith, length-print ts, length-append s (q ∷ print ts))

lex_from-print :
    (fuel : ℕ) (ts : List Token) (l : Lexed)
    → AllTokens ts
    → length ts < fuel
    → length l.tok + length ts ≤ shell_maxtok
    → lex_from fuel (print ts) l ≡ some (some (with_tokens ts l))
unfolding lex_from
lex_from-print zero ts l h enough few = absurd (omega arith)
lex_from-print (suc fuel) [] l h enough few = ap (λ d. some (some d)) (sym (no_tokens l))
lex_from-print (suc fuel) (t ∷ ts) l h enough few =
    let room : leb shell_maxtok (length l.tok) ≡ false = ground arith in
    let l' = add_token (type_of t) (text_of t) l in
    rw (room, find-put t ts h.0)
      (lex_from-print fuel ts l' h.1 (omega arith)
          (omega (arith, length-append l.tok ((length l.tokbuf, type_of t) ∷ [])))
        ∙ ap (λ d. some (some d)) (add_token-first t ts l))

-- `lexan` of a line of at most SHELL_MAXTOK tokens, each written behind a blank, up to the newline,
-- finds exactly these tokens: in order, with their types, the places where their texts start, and in the
-- buffer the texts, those of quoted strings without the quotes, each with a null behind it.
pub lexan-print :
    (ts : List Token)
    → AllTokens ts
    → length ts ≤ shell_maxtok
    → lexan (print ts) ≡ some (some (record { tok = entries_from 0 ts; tokbuf = texts ts }))
unfolding lexan
lexan-print ts h few =
    lex_from-print (suc (length (print ts))) ts (record { tok = []; tokbuf = [] }) h
      (omega (arith, length-print ts)) (omega arith)
