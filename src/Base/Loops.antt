-- ===== src/Base/Loops.antt =====
-- Counted loops.
use Prim.Native.Nat.{ℕ, zero, suc, ◌+◌, ◌-◌}
use mathlib.Core.Path.{◌≡◌, ◌∙◌}
use mathlib.Core.Bool.{◌&&◌}
use native.Mathlib.Omega.{arith}
use virtual_memory_xinu_f.Base.Tests.{leb, ltb, if◌then◌else◌}
use virtual_memory_xinu_f.Base.Array.{update}

-- The state after `for (k = from; k < from + left; k++) state = round(k, state)`.
unfoldable pub for_range {ℓ} :
    {State : Type ℓ} → (left from : ℕ) → (ℕ → State → State) → State → State
for_range zero from round state = state
for_range (suc left) from round state = for_range left (from + 1) round (round from state)

-- A loop that assigns to the entries `i + off` of an array, one after the other.
pub for_range-update :
    {A : Type 0} (off : ℕ) (g : ℕ → A → A) (n i : ℕ) (t : ℕ → A) (q : ℕ)
    → for_range n i (λ k a. update a (k + off) (g k (a (k + off)))) t q
      ≡ (if leb (i + off) q && ltb q (i + off + n) then g (q - off) (t q) else t q)
unfolding for_range
for_range-update off g zero i t q = ground arith
for_range-update off g (suc n) i t q =
    for_range-update off g n (i + 1) (update t (i + off) (g i (t (i + off)))) q ∙ ground arith

-- A loop that assigns to the entries from `i` on.
pub for_range-set :
    {A : Type 0} (v : ℕ → A) (n i : ℕ) (t : ℕ → A) (q : ℕ)
    → for_range n i (λ k a. update a k (v k)) t q ≡ (if leb i q && ltb q (i + n) then v q else t q)
unfolding for_range
for_range-set v zero i t q = ground arith
for_range-set v (suc n) i t q = for_range-set v n (i + 1) (update t i (v i)) q ∙ ground arith
