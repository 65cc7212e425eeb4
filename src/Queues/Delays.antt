-- ===== src/Queues/Delays.antt =====
-- What an insertion into a delta list does to the delays.
use virtual_memory_xinu_f.Base.{
  ℕ, ◌+◌, ◌-◌, ◌≡◌, refl, ap, ap₂, ◌∙◌, Bool, true, false, leb, ◌==◌, List, [], ◌∷◌, ◌++◌, inl, inr,
  arith, if◌then◌else◌, Bool-cases,
}
use virtual_memory_xinu_f.Base.Int.{ℤ, pos, is_neg, pos_part, ◌-ℤ◌}
use virtual_memory_xinu_f.Base.Distinct.{mem, Distinct}
use virtual_memory_xinu_f.Queues.Delta.{
  not_neg, delay_of, early, late, remaining, pos-sub, late-mem, pos_of,
}

abbrev pub is_first : List ℕ → ℕ → Bool
is_first [] a = false
is_first (z ∷ zs) a = z == a

-- The keys after the insertion of `pid` with the key `r`, in front of `zs`.
abbrev pub new_keys : (ℕ → ℤ) → ℕ → ℕ → List ℕ → ℕ → ℤ
new_keys k pid r zs a = if pid == a then pos r else if is_first zs a then k a -ℤ pos r else k a

pub delay_of-same :
    (k k' : ℕ → ℤ) (xs : List ℕ) (a : ℕ)
    → ((b : ℕ) → mem b xs ≡ true → k' b ≡ k b)
    → delay_of k' xs a ≡ delay_of k xs a
delay_of-same k k' [] a same = refl
delay_of-same k k' (x ∷ xs) a same =
    ap₂ (λ z r. pos_part z + (if x == a then 0 else r)) (same x (ground arith))
      (delay_of-same k k' xs a (λ b m. same b (ground arith)))

module _ (k : ℕ → ℤ) (pid : ℕ) where
  first_out : (zs : List ℕ) (a : ℕ) → mem a zs ≡ false → is_first zs a ≡ false
  first_out [] a m = refl
  first_out (z ∷ zs) a m = ground arith

  late_out : (n x : ℕ) (xs : List ℕ) → Distinct (x ∷ xs) → mem x (late k n xs) ≡ false
  late_out n x xs d = elim (Bool-cases (mem x (late k n xs))) [
    | inl inside ↦ absurd (cc (late-mem k n xs x inside, d.0))
    | inr out ↦ out
  ]

  -- The keys that the rest of the proof is about.
  abbrev pub after : ℕ → List ℕ → ℕ → ℤ
  after n xs = new_keys k pid (remaining k n xs) (late k n xs)

  -- The key of an entry that the walk passes stays.
  same_front :
      (n x : ℕ) (xs : List ℕ)
      → Distinct (x ∷ xs)
      → mem pid (x ∷ xs) ≡ false
      → after (n - pos_part (k x)) xs x ≡ k x
  same_front n x xs d new =
      let ne : (pid == x) ≡ false = ground arith in
      let first =
        first_out (late k (n - pos_part (k x)) xs) x (late_out (n - pos_part (k x)) x xs d) in
      rw (ne, first) refl

  pub delays :
      (n : ℕ) (xs : List ℕ)
      → Distinct xs
      → mem pid xs ≡ false
      → not_neg k xs ≡ true
      → (delay_of (after n xs) (early k n xs ++ pid ∷ late k n xs) pid ≡ n)
        × ((a : ℕ)
            → mem a xs ≡ true
            → delay_of (after n xs) (early k n xs ++ pid ∷ late k n xs) a ≡ delay_of k xs a)
  delays n [] d new nn = (ground arith, λ a m. absurd (cc))
  delays n (x ∷ xs) d new nn = elim (Bool-cases (leb m n)) [
    | inl goes ↦
        let ih = delays (n - m) xs d.1 (ground arith) (ground (arith, nn)) in
        let here = ap pos_part (same_front n x xs d new) in
        rw goes (ground (arith, here, ih.0), λ a i. rest a i here (ih.1 a))
    | inr stops ↦ rw stops (
      ground arith,
      λ a i.
          let same = delay_of-same k (new_keys k pid n (x ∷ xs)) xs a λ b j.
            let other : (pid == b) ≡ false = ground arith in
            let behind : (x == b) ≡ false = ground (arith, d.0) in rw (other, behind) refl in
          ground (arith, same, lowered stops),
    )
  ]
    where
      m : ℕ
      m = pos_part (k x)

      lowered : leb m n ≡ false → pos_part (k x -ℤ pos n) ≡ m - n
      lowered stops =
          ap (λ z. pos_part (z -ℤ pos n)) (pos_of (k x) (ground (arith, nn)))
          ∙ ap pos_part (pos-sub n m (ground arith))

      rest :
          (a : ℕ)
          → mem a (x ∷ xs) ≡ true
          → pos_part (after (n - m) xs x) ≡ m
          → (mem a xs ≡ true
              → delay_of (after (n - m) xs) (early k (n - m) xs ++ pid ∷ late k (n - m) xs) a
                ≡ delay_of k xs a)
          → delay_of (after (n - m) xs) (x ∷ early k (n - m) xs ++ pid ∷ late k (n - m) xs) a
            ≡ delay_of k (x ∷ xs) a
      rest a i here ih = ground (arith, ih)

  pub not_neg-same :
      (k' : ℕ → ℤ) (xs : List ℕ)
      → ((b : ℕ) → mem b xs ≡ true → k' b ≡ k b)
      → not_neg k xs ≡ true
      → not_neg k' xs ≡ true
  not_neg-same k' [] same nn = refl
  not_neg-same k' (x ∷ xs) same nn =
      let here = ap is_neg (same x (ground arith)) in
      ground (arith, here, not_neg-same k' xs (λ b m. same b (ground arith)) (ground (arith, nn)))

  pub not_neg-after :
      (n : ℕ) (xs : List ℕ)
      → Distinct xs
      → mem pid xs ≡ false
      → not_neg k xs ≡ true
      → not_neg (after n xs) (early k n xs ++ pid ∷ late k n xs) ≡ true
  not_neg-after n [] d new nn = ground arith
  not_neg-after n (x ∷ xs) d new nn = elim (Bool-cases (leb (pos_part (k x)) n)) [
    | inl goes ↦
        let ih = not_neg-after (n - pos_part (k x)) xs d.1 (ground arith) (ground (arith, nn)) in
        let here = ap is_neg (same_front n x xs d new) in rw goes (ground (arith, here, ih, nn))
    | inr stops ↦
        let xs_same =
          not_neg-same (new_keys k pid n (x ∷ xs)) xs
            (λ b j.
              let other : (pid == b) ≡ false = ground arith in
              let behind : (x == b) ≡ false = ground (arith, d.0) in rw (other, behind) refl)
            (ground (arith, nn)) in
        let sub : is_neg (k x -ℤ pos n) ≡ false =
          ap (λ z. is_neg (z -ℤ pos n)) (pos_of (k x) (ground (arith, nn)))
          ∙ ap is_neg (pos-sub n (pos_part (k x)) (ground arith)) in
        rw stops (ground (arith, xs_same, sub))
  ]
