-- ===== src/Base/Distinct.antt =====
-- Lists of numbers without repetition, and the pigeonhole principle for them.
use Prim.Native.Nat.{ℕ, zero, suc, ◌+◌, ◌≤◌, ◌<◌}
use mathlib.Core.Path.{◌≡◌, refl, ap}
use mathlib.Core.Logic.{◌≢◌, ◌⊎◌, inl, inr}
use mathlib.Core.Bool.{Bool, true, false, not, ◌&&◌, ◌||◌}
use mathlib.Core.List.{List, [], ◌∷◌, ◌++◌}
use native.Mathlib.Omega.{arith}
use virtual_memory_xinu_f.Base.Tests.{◌==◌, if◌then◌else◌}

abbrev pub mem : ℕ → List ℕ → Bool
mem a [] = false
mem a (x ∷ xs) = (a == x) || mem a xs

abbrev pub Distinct : List ℕ → Type 0
Distinct [] = Unit {0}
Distinct (x ∷ xs) = (mem x xs ≡ false) × Distinct xs

abbrev pub length : List ℕ → ℕ
length [] = 0
length (x ∷ xs) = suc (length xs)

-- The list with the first `a` taken out.
abbrev pub erase : ℕ → List ℕ → List ℕ
erase a [] = []
erase a (x ∷ xs) = if a == x then xs else x ∷ erase a xs

mem-cases : (a : ℕ) (xs : List ℕ) → (mem a xs ≡ true) ⊎ (mem a xs ≡ false)
mem-cases a xs = ground arith

pub mem-append : (a : ℕ) (xs ys : List ℕ) → mem a (xs ++ ys) ≡ (mem a xs || mem a ys)
mem-append a [] ys = refl
mem-append a (x ∷ xs) ys = ground (arith, mem-append a xs ys)

pub mem-erase : (a b : ℕ) (xs : List ℕ) → a ≢ b → mem a (erase b xs) ≡ mem a xs
mem-erase a b [] h = refl
mem-erase a b (x ∷ xs) h = ground (arith, mem-erase a b xs h)

pub mem-erase_self : (a : ℕ) (xs : List ℕ) → Distinct xs → mem a (erase a xs) ≡ false
mem-erase_self a [] d = refl
mem-erase_self a (x ∷ xs) d = ground (arith, mem-erase_self a xs d.1)

pub Distinct-erase : (a : ℕ) (xs : List ℕ) → Distinct xs → Distinct (erase a xs)
Distinct-erase a [] d = tt
Distinct-erase a (x ∷ xs) d = ground (arith, Distinct-erase a xs d.1, mem-erase x a xs)

pub length-erase : (a : ℕ) (xs : List ℕ) → mem a xs ≡ true → length xs ≡ suc (length (erase a xs))
length-erase a [] m = absurd (cc)
length-erase a (x ∷ xs) m = ground (arith, length-erase a xs)

pub Distinct-snoc : (xs : List ℕ) (a : ℕ) → Distinct xs → mem a xs ≡ false → Distinct (xs ++ a ∷ [])
Distinct-snoc [] a d h = (refl, tt)
Distinct-snoc (x ∷ xs) a d h = ground (arith, Distinct-snoc xs a d.1, mem-append x xs (a ∷ []))

pub mem-head : (a : ℕ) (xs : List ℕ) → mem a (a ∷ xs) ≡ true
mem-head a xs = ground arith

pub mem-tail : (x a : ℕ) (xs : List ℕ) → mem a xs ≡ true → mem a (x ∷ xs) ≡ true
mem-tail x a xs m = ground arith

pub mem-tail_false : (x a : ℕ) (xs : List ℕ) → mem a (x ∷ xs) ≡ false → mem a xs ≡ false
mem-tail_false x a xs m = ground arith

pub ne_of_mem : (a b : ℕ) (xs : List ℕ) → mem a xs ≡ true → mem b xs ≡ false → a ≢ b
ne_of_mem a b xs m out e = cc

mem-cases_head : (a x : ℕ) → ((a == x) ≡ true) ⊎ ((a == x) ≡ false)
mem-cases_head a x = ground arith

pub cons-injective : (x y : ℕ) (xs ys : List ℕ) → x ∷ xs ≡ y ∷ ys → (x ≡ y) × (xs ≡ ys)
cons-injective x y xs ys e = (cc, cc)

pub erase-head : (a : ℕ) (xs : List ℕ) → erase a (a ∷ xs) ≡ xs
erase-head a xs = ground arith

pub mem-cons_cases : (a x : ℕ) (xs : List ℕ) → mem a (x ∷ xs) ≡ true → (a ≡ x) ⊎ (mem a xs ≡ true)
mem-cons_cases a x xs m = ground arith

pub erase-not_mem : (a : ℕ) (xs : List ℕ) → mem a xs ≡ false → erase a xs ≡ xs
erase-not_mem a [] m = refl
erase-not_mem a (x ∷ xs) m = ground (arith, erase-not_mem a xs)

pub mem-erase_lem :
    (a b : ℕ) (xs : List ℕ) → Distinct xs → mem a (erase b xs) ≡ (mem a xs && not (b == a))
mem-erase_lem a b xs d = elim (mem-cases_head b a) [
  | inl same ↦
      let e : b ≡ a = ground arith in rw same (rw e (rw (mem-erase_self a xs d) (ground arith)))
  | inr other ↦ let ne : a ≢ b = ground arith in rw other (rw (mem-erase a b xs ne) (ground arith))
]

-- The parts of a list without repetition.
pub Distinct-left : (xs ys : List ℕ) → Distinct (xs ++ ys) → Distinct xs
Distinct-left [] ys d = tt
Distinct-left (x ∷ xs) ys d = ground (arith, Distinct-left xs ys d.1, mem-append x xs ys)

pub Distinct-right : (xs ys : List ℕ) → Distinct (xs ++ ys) → Distinct ys
Distinct-right [] ys d = d
Distinct-right (x ∷ xs) ys d = Distinct-right xs ys d.1

pub Distinct-drop_mid : (a : ℕ) (xs ys : List ℕ) → Distinct (xs ++ a ∷ ys) → Distinct (xs ++ ys)
Distinct-drop_mid a [] ys d = d.1
Distinct-drop_mid a (x ∷ xs) ys d =
    ground (arith, Distinct-drop_mid a xs ys d.1, mem-append x xs (a ∷ ys), mem-append x xs ys)

pub Distinct-apart :
    (xs ys : List ℕ) (a : ℕ) → Distinct (xs ++ ys) → mem a xs ≡ true → mem a ys ≡ false
Distinct-apart [] ys a d m = absurd (cc)
Distinct-apart (x ∷ xs) ys a d m = ground (arith, Distinct-apart xs ys a d.1, mem-append x xs ys)

pub Distinct-apart_right :
    (xs ys : List ℕ) (a : ℕ) → Distinct (xs ++ ys) → mem a ys ≡ true → mem a xs ≡ false
Distinct-apart_right xs ys a d m = elim (mem-cases a xs) [
  | inl inside ↦ absurd (cc (Distinct-apart xs ys a d inside))
  | inr out ↦ out
]

-- A member splits its list, and `erase` joins the two parts.
pub mem-split :
    (a : ℕ) (xs : List ℕ)
    → mem a xs ≡ true
    → (ys : List ℕ) × (zs : List ℕ) × (xs ≡ ys ++ a ∷ zs) × (erase a xs ≡ ys ++ zs)
mem-split a [] m = absurd (cc)
mem-split a (x ∷ xs) m = elim (mem-cases_head a x) [
  | inl e ↦ ([], xs, ground arith, ground arith)
  | inr ne ↦
      let (ys, zs, e, r) = mem-split a xs (ground arith) in
      (x ∷ ys, zs, ap (λ l. x ∷ l) e, ground arith)
]

-- Numbers in an interval of `n` numbers, without repetition: at most `n`.
pub pigeonhole :
    (n lo : ℕ) (xs : List ℕ)
    → Distinct xs
    → ((a : ℕ) → mem a xs ≡ true → (lo ≤ a) × (a < lo + n))
    → length xs ≤ n
pigeonhole zero lo [] d h = omega arith
pigeonhole zero lo (x ∷ xs) d h = absurd (omega (arith, h x (ground arith)))
pigeonhole (suc n) lo xs d h = elim (mem-cases (lo + n) xs) [
  | inl top ↦ omega (
    arith,
    length-erase (lo + n) xs top,
    pigeonhole n lo (erase (lo + n) xs) (Distinct-erase (lo + n) xs d)
        λ a m. below a (ne_of_erased a m) (in_rest a (ne_of_erased a m) m),
  )
  | inr out ↦ omega (arith, pigeonhole n lo xs d λ a m. below a (ne_of_mem a m out) m)
]
  where
    below : (a : ℕ) → a ≢ lo + n → mem a xs ≡ true → (lo ≤ a) × (a < lo + n)
    below a ne m = omega (arith, h a m)

    ne_of_mem : (a : ℕ) → mem a xs ≡ true → mem (lo + n) xs ≡ false → a ≢ lo + n
    ne_of_mem a m out e = cc

    ne_of_erased : (a : ℕ) → mem a (erase (lo + n) xs) ≡ true → a ≢ lo + n
    ne_of_erased a m e = cc (mem-erase_self (lo + n) xs d)

    in_rest : (a : ℕ) → a ≢ lo + n → mem a (erase (lo + n) xs) ≡ true → mem a xs ≡ true
    in_rest a ne m = rw (mem-erase a (lo + n) xs ne) at m
