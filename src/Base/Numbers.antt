-- ===== src/Base/Numbers.antt =====
-- Facts on the native numbers that several components use.
use native.Mathlib.Nat.{mul-le-mul_right, le-div_iff_mul-le, div-add-mod'}
use Prim.Native.Nat.{ℕ, suc, ◌*◌, ◌/◌, ◌≤◌, ◌<◌}
use mathlib.Core.Path.{◌≡◌}
use native.Mathlib.Decide.{dec_lt}
use native.Mathlib.Omega.{arith}

-- A factor that is not 0 cancels.
pub mul_inj : (x y k : ℕ) → 0 < k → x * k ≡ y * k → x ≡ y
mul_inj x y k pos e = elim (dec_lt x y) [
  | yes p ↦ absurd (omega (arith, mul-le-mul_right {m = suc x} {n = y} k p))
  | no p ↦ elim (dec_lt y x) [
    | yes q ↦ absurd (omega (arith, mul-le-mul_right {m = suc y} {n = x} k q))
    | no q ↦ omega arith
  ]
]

-- Division keeps the order.
pub div_mono : (x y k : ℕ) → 0 < k → x ≤ y → x / k ≤ y / k
div_mono x y k pos h = (le-div_iff_mul-le pos).1 (omega (arith, div-add-mod' x k))
