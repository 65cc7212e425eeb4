-- ===== src/Base/Ring.antt =====
-- A circular buffer of `n` places from `b` on, as a list.
use virtual_memory_xinu_f.Base.{
  ℕ, suc, ◌+◌, ◌-◌, ◌≤◌, ◌<◌, ◌≡◌, ◌≢◌, ap, sym, ◌∙◌, List, [], ◌∷◌, ◌++◌, length, arith, ltb, leb,
  if◌then◌else◌, update, update_self, update-ne,
}

-- Behind the last place comes the first.
abbrev pub wrap : ℕ → ℕ → ℕ → ℕ
wrap b n p = if leb (b + n) p then b else p

-- The place that is `i` behind `h`.
abbrev pub slot : ℕ → ℕ → ℕ → ℕ → ℕ
slot n b h i = if ltb (h + i) (b + n) then h + i else h + i - n

module _ (n b : ℕ) where
  -- The items `xs` stand in the buffer from the place `i` behind `h` on.
  abbrev pub Held : (ℕ → ℕ) → ℕ → ℕ → List ℕ → Type 0
  Held m h i [] = Unit {0}
  Held m h i (x ∷ xs) = (m (slot n b h i) ≡ x) × Held m h (i + 1) xs

  module _ (m : ℕ → ℕ) (h : ℕ) (low : b ≤ h) (high : h < b + n) where
    Held-update :
        (i k v : ℕ) (xs : List ℕ)
        → i + length xs ≤ k
        → k < n
        → Held m h i xs
        → Held (update m (slot n b h k) v) h i xs
    Held-update i k v [] f g held = tt
    Held-update i k v (x ∷ xs) f g held =
        let apart : slot n b h k ≢ slot n b h i = λ e. ground arith in
        (
          update-ne m (slot n b h k) (slot n b h i) v apart ∙ held.0,
          Held-update (i + 1) k v xs (omega arith) g held.1,
        )

    pub Held-front : (i : ℕ) (xs ys : List ℕ) → Held m h i (xs ++ ys) → Held m h i xs
    Held-front i [] ys held = tt
    Held-front i (x ∷ xs) ys held = (held.0, Held-front (i + 1) xs ys held.1)

    Held-append :
        (i x : ℕ) (xs : List ℕ)
        → m (slot n b h (i + length xs)) ≡ x
        → Held m h i xs
        → Held m h i (xs ++ x ∷ [])
    Held-append i x [] e held =
        let same : i + 0 ≡ i = omega arith in (ap (λ k. m (slot n b h k)) (sym same) ∙ e, tt)
    Held-append i x (y ∷ xs) e held =
        let same : i + 1 + length xs ≡ i + suc (length xs) = omega arith in
        (held.0, Held-append (i + 1) x xs (ap (λ k. m (slot n b h k)) same ∙ e) held.1)

    -- The items behind the first, counted from the place behind it.
    pub Held-shift :
        (i : ℕ) (xs : List ℕ)
        → i + length xs < n
        → Held m h (i + 1) xs
        → Held m (wrap b n (h + 1)) i xs
    Held-shift i [] f held = tt
    Held-shift i (x ∷ xs) f held =
        let same : slot n b h (i + 1) ≡ slot n b (wrap b n (h + 1)) i = ground arith in
        (ap m (sym same) ∙ held.0, Held-shift (i + 1) xs (omega arith) held.1)

  -- An item is written behind the others.
  pub Held-put :
      (m : ℕ → ℕ) (h x : ℕ) (xs : List ℕ)
      → b ≤ h
      → h < b + n
      → length xs < n
      → Held m h 0 xs
      → Held (update m (slot n b h (length xs)) x) h 0 (xs ++ x ∷ [])
  Held-put m h x xs low high f held =
      let same : 0 + length xs ≡ length xs = omega arith in
      let m' = update m (slot n b h (length xs)) x in
      Held-append m' h low high 0 x xs
        (ap (λ k. m' (slot n b h k)) same ∙ update_self m (slot n b h (length xs)) x)
        (Held-update m h low high 0 (length xs) x xs (omega arith) f held)

-- The place behind the last item.
pub wrap-slot :
    (n b h k : ℕ) → b ≤ h → h < b + n → k < n → wrap b n (slot n b h k + 1) ≡ slot n b h (k + 1)
wrap-slot n b h k low high f = ground arith

pub slot_bounds :
    (n b h k : ℕ) → b ≤ h → h < b + n → k ≤ n → (b ≤ slot n b h k) × (slot n b h k < b + n)
slot_bounds n b h k low high f = ground arith

pub slot_zero : (n b h : ℕ) → h < b + n → slot n b h 0 ≡ h
slot_zero n b h high = ground arith

-- `l` places back, within the buffer.
pub slot-sub :
    (n b h k l : ℕ)
    → b ≤ h
    → h < b + n
    → k + l ≤ n
    → l ≤ slot n b h (k + l) - b
    → slot n b h (k + l) - l ≡ slot n b h k
slot-sub n b h k l low high f g = ground arith

pub slot-wrap :
    (n b h k : ℕ) → b ≤ h → h < b + n → k < n → slot n b h (k + 1) ≡ slot n b (wrap b n (h + 1)) k
slot-wrap n b h k low high f = ground arith
