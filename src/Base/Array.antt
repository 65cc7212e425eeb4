-- ===== src/Base/Array.antt =====
-- A C array, or memory, is a function from indices.
use Prim.Native.Nat.{ℕ}
use mathlib.Core.Path.{◌≡◌}
use mathlib.Core.Logic.{◌≢◌}
use native.Mathlib.Omega.{arith}
use virtual_memory_xinu_f.Base.Tests.{◌==◌, if◌then◌else◌}

module _ {ℓ} {A : Type ℓ} where
  -- `a[i] = v`.
  abbrev pub update : (ℕ → A) → ℕ → A → ℕ → A
  update t p v q = if p == q then v else t q

  pub update_self : (t : ℕ → A) (p : ℕ) (v : A) → update t p v p ≡ v
  update_self t p v = ground arith

  pub update-ne : (t : ℕ → A) (p q : ℕ) (v : A) → p ≢ q → update t p v q ≡ t q
  update-ne t p q v h = ground arith
