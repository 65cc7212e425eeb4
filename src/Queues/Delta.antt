-- ===== src/Queues/Delta.antt =====
-- Delta lists: the delay of a process is the sum of the keys up to its own.
use virtual_memory_xinu_f.Base.{
  ℕ, zero, suc, ◌+◌, ◌-◌, ◌≤◌, ◌<◌, ◌≡◌, refl, ap, ap₂, ◌∙◌, Bool, true, false, not, some, leb,
  ◌==◌, ◌&&◌, List, [], ◌∷◌, ◌++◌, inl, inr, arith, if◌then◌else◌, Bool-cases,
}
use virtual_memory_xinu_f.Base.Int.{ℤ, pos, negsuc, is_neg, pos_part, ◌-ℤ◌, leb_ℤ}
use virtual_memory_xinu_f.Base.Distinct.{mem, Distinct, length}
use virtual_memory_xinu_f.Queues.{Qentry}
use virtual_memory_xinu_f.Queues.Chain.{Chain, last_of, head_of, qnext-Chain}
use virtual_memory_xinu_f.Queues.Ordered.{find_delay}

-- No key is negative.
abbrev pub not_neg : (ℕ → ℤ) → List ℕ → Bool
not_neg k [] = true
not_neg k (x ∷ xs) = not (is_neg (k x)) && not_neg k xs

abbrev pub delay_of : (ℕ → ℤ) → List ℕ → ℕ → ℕ
delay_of k [] a = 0
delay_of k (x ∷ xs) a = let rest = delay_of k xs a in pos_part (k x) + (if x == a then 0 else rest)

-- The entries whose delay is at most `n`, the others, and what is left of `n` after the first.
abbrev pub early : (ℕ → ℤ) → ℕ → List ℕ → List ℕ
early k n [] = []
early k n (x ∷ xs) =
    let rest = early k (n - pos_part (k x)) xs in if leb (pos_part (k x)) n then x ∷ rest else []

abbrev pub late : (ℕ → ℤ) → ℕ → List ℕ → List ℕ
late k n [] = []
late k n (x ∷ xs) =
    let rest = late k (n - pos_part (k x)) xs in if leb (pos_part (k x)) n then rest else x ∷ xs

abbrev pub remaining : (ℕ → ℤ) → ℕ → List ℕ → ℕ
remaining k n [] = n
remaining k n (x ∷ xs) =
    let rest = remaining k (n - pos_part (k x)) xs in if leb (pos_part (k x)) n then rest else n

module _ (k : ℕ → ℤ) where
  pub early-append-late : (n : ℕ) (xs : List ℕ) → early k n xs ++ late k n xs ≡ xs
  early-append-late n [] = refl
  early-append-late n (x ∷ xs) = ground (arith, early-append-late (n - pos_part (k x)) xs)

  pub early_le : (n : ℕ) (xs : List ℕ) (a : ℕ) → mem a (early k n xs) ≡ true → delay_of k xs a ≤ n
  early_le n [] a m = absurd (cc)
  early_le n (x ∷ xs) a m = ground (arith, early_le (n - pos_part (k x)) xs a)

  pub late-mem : (n : ℕ) (xs : List ℕ) (a : ℕ) → mem a (late k n xs) ≡ true → mem a xs ≡ true
  late-mem n [] a m = m
  late-mem n (x ∷ xs) a m = ground (arith, late-mem (n - pos_part (k x)) xs a)

  pub late_gt :
      (n : ℕ) (xs : List ℕ) (a : ℕ) → Distinct xs → mem a (late k n xs) ≡ true → n < delay_of k xs a
  late_gt n [] a d m = absurd (cc)
  late_gt n (x ∷ xs) a d m =
      let inside = late-mem (n - pos_part (k x)) xs a in
      ground (arith, inside, late_gt (n - pos_part (k x)) xs a d.1, d.0)

pub pos_of : (n : ℤ) → is_neg n ≡ false → n ≡ pos (pos_part n)
pos_of (pos n) e = refl
pos_of (negsuc n) e = absurd (cc)

pub pos-sub : (m n : ℕ) → m ≤ n → pos n -ℤ pos m ≡ pos (n - m)
unfolding ◌-ℤ◌
pos-sub m n h = ground arith

-- Where the walk of `insertd` stops.
pub find_delay_lem :
    (t : ℕ → Qentry) (n fuel p : ℕ) (xs : List ℕ) (tail : ℕ)
    → not_neg (λ a. (t a).qkey) xs ≡ true
    → length xs < fuel
    → mem tail xs ≡ false
    → Chain t p xs tail
    → find_delay fuel tail (pos n) p (some (head_of xs tail)) t ≡ (
      pos (remaining (λ a. (t a).qkey) n xs),
      last_of p (early (λ a. (t a).qkey) n xs),
      some (head_of (late (λ a. (t a).qkey) n xs) tail),
    )
unfolding find_delay
find_delay_lem t n zero p xs tail nn enough out c = absurd (omega arith)
find_delay_lem t n (suc fuel) p [] tail nn enough out c =
    let at_end : (tail == tail) ≡ true = ground arith in rw at_end refl
find_delay_lem t n (suc fuel) p (x ∷ xs) tail nn enough out c =
    let ne : (x == tail) ≡ false = ground arith in
    let positive : is_neg (t x).qkey ≡ false = ground (arith, nn) in
    let m = pos_part (t x).qkey in
    let key : (t x).qkey ≡ pos m = pos_of (t x).qkey positive in
    elim (Bool-cases (leb m n)) [
      | inl goes ↦
          let test : leb_ℤ (t x).qkey (pos n) ≡ true =
            ap (λ z. leb_ℤ z (pos n)) key ∙ ground arith in
          let less : pos n -ℤ (t x).qkey ≡ pos (n - m) =
            ap (λ z. pos n -ℤ z) key ∙ pos-sub m n (ground arith) in
          let further =
            find_delay_lem t (n - m) fuel x xs tail (ground (arith, nn)) (omega arith)
              (ground arith) c.2 in
          rw (ne, test, goes)
            (ap₂ (λ z o. find_delay fuel tail z x o t) less (qnext-Chain t x xs tail c.2) ∙ further)
      | inr stops ↦
          let test : leb_ℤ (t x).qkey (pos n) ≡ false =
            ap (λ z. leb_ℤ z (pos n)) key ∙ ground arith in
          rw (ne, test, stops) refl
    ]
