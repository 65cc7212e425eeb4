-- ===== src/Base/Int.antt =====
-- Signed integers over the native numbers, under the library's names.
use Prim.Native.Nat.{ℕ, zero, suc, ◌+◌, ◌-◌, ◌^◌, ◌≤◌, ◌<◌}
use mathlib.Core.Path.{◌≡◌, refl}
use native.Mathlib.Omega.{arith}
use mathlib.Core.Bool.{Bool, true, false}
use virtual_memory_xinu_f.Base.Tests.{ltb, leb, if◌then◌else◌}

-- `negsuc n` is -(n + 1).
pub data ℤ : Type 0 where
  pos : ℕ → ℤ
  negsuc : ℕ → ℤ

-- `++x` and `--x`.
unfoldable pub succ_ℤ : ℤ → ℤ
succ_ℤ (pos n) = pos (suc n)
succ_ℤ (negsuc zero) = pos 0
succ_ℤ (negsuc (suc n)) = negsuc n

unfoldable pub pred_ℤ : ℤ → ℤ
pred_ℤ (pos zero) = negsuc 0
pred_ℤ (pos (suc n)) = pos n
pred_ℤ (negsuc n) = negsuc (suc n)

-- The size of a positive and of a negative integer, which are numbers that `omega` reads.
abbrev pub pos_part : ℤ → ℕ
pos_part (pos n) = n
pos_part (negsuc n) = 0

abbrev pub neg_part : ℤ → ℕ
neg_part (pos n) = 0
neg_part (negsuc n) = suc n

-- The same on an `int32`, which goes round at its ends.
abbrev pub max_int32 : ℕ
max_int32 = 0x7fff_ffff

unfoldable pub succ_int32 : ℤ → ℤ
unfolding succ_ℤ
succ_int32 (pos n) = if leb max_int32 n then negsuc max_int32 else succ_ℤ (pos n)
succ_int32 (negsuc n) = succ_ℤ (negsuc n)

unfoldable pub pred_int32 : ℤ → ℤ
unfolding pred_ℤ
pred_int32 (pos n) = pred_ℤ (pos n)
pred_int32 (negsuc n) = if leb max_int32 n then pos max_int32 else pred_ℤ (negsuc n)

pub succ_int32-lt : (x : ℤ) → pos_part x < max_int32 → succ_int32 x ≡ succ_ℤ x
unfolding succ_int32
succ_int32-lt (pos n) h = ground arith
succ_int32-lt (negsuc n) h = refl

pub pred_int32-le : (x : ℤ) → neg_part x ≤ max_int32 → pred_int32 x ≡ pred_ℤ x
unfolding pred_int32
pred_int32-le (pos n) h = refl
pred_int32-le (negsuc n) h = ground arith

-- `x < 0`.
abbrev pub is_neg : ℤ → Bool
is_neg (pos n) = false
is_neg (negsuc n) = true

abbrev pub sub_ℕ : ℕ → ℕ → ℤ
sub_ℕ a b = if leb b a then pos (a - b) else negsuc (b - a - 1)

infixl 65 ◌+ℤ◌ ◌-ℤ◌
unfoldable pub ◌+ℤ◌ : ℤ → ℤ → ℤ
a +ℤ b = sub_ℕ (pos_part a + pos_part b) (neg_part a + neg_part b)

unfoldable pub ◌-ℤ◌ : ℤ → ℤ → ℤ
a -ℤ b = sub_ℕ (pos_part a + neg_part b) (neg_part a + pos_part b)

-- `a < b` and `a <= b`.
abbrev pub ltb_ℤ : ℤ → ℤ → Bool
ltb_ℤ a b = ltb (pos_part a + neg_part b) (pos_part b + neg_part a)

abbrev pub leb_ℤ : ℤ → ℤ → Bool
leb_ℤ a b = leb (pos_part a + neg_part b) (pos_part b + neg_part a)

-- The `int32` that has the bits of a `uint32`.
abbrev pub to_int32 : ℕ → ℤ
to_int32 n = if ltb n (2 ^ 31) then pos n else sub_ℕ n (2 ^ 32)
