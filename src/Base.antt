-- ===== src/Base.antt =====
-- The names that the other modules share: the libraries', passed on, and small helpers of C idiom:
-- Boolean tests on numbers, the conditional, arrays as functions, and lists without repetition.
mod Tests
mod Array
mod Lists
pub mod Loops
pub mod Distinct
pub mod Int
pub mod Ring
pub use Tests.*
pub use Array.*
pub use Lists.*
unfoldable pub use Loops.{for_range}
pub use Prim.Native.Nat.{ℕ, zero, suc, ◌+◌, ◌-◌, ◌*◌, ◌/◌, ◌%◌, ◌^◌, ◌≤◌, ◌<◌}
pub use mathlib.Core.Path.{◌≡◌, refl, sym, ap, ap₂, ◌∙◌, subst}
pub use mathlib.Core.Logic.{◌≢◌, ◌⊎◌, inl, inr}
pub use mathlib.Core.Bool.{Bool, true, false, ◌&&◌, ◌||◌, not}
pub use mathlib.Core.Option.{Option, none, some}
pub use mathlib.Core.List.{List, [], ◌∷◌, ◌++◌}
pub use native.Mathlib.Omega.{arith}

-- What a system call returns: OK or SYSERR.
pub data Status : Type 0 where
  ok syserr : Status

-- To split on a computed value and keep the equation.
pub Bool-cases : (b : Bool) → (b ≡ true) ⊎ (b ≡ false)
Bool-cases true = inl refl
Bool-cases false = inr refl

pub Option-cases {ℓ} : {A : Type ℓ} (o : Option A) → (o ≡ none) ⊎ ((a : A) × (o ≡ some a))
Option-cases none = inl refl
Option-cases (some a) = inr (a, refl)

-- What holds of both branches holds of the conditional.
pub if_either {ℓ κ} :
    {A : Type ℓ} (P : A → Type κ) (b : Bool) (x y : A)
    → (b ≡ true → P x)
    → (b ≡ false → P y)
    → P (if b then x else y)
if_either P true x y p q = p refl
if_either P false x y p q = q refl

-- Two conditionals with the same test.
pub both_branches {ℓ κ μ} :
    {A : Type ℓ} {B : Type κ} (P : A → B → Type μ) (b : Bool) (x y : A) (z w : B)
    → (b ≡ true → P x z)
    → (b ≡ false → P y w)
    → P (if b then x else y) (if b then z else w)
both_branches P true x y z w p q = p refl
both_branches P false x y z w p q = q refl
