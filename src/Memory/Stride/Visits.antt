-- ===== src/Memory/Stride/Visits.antt =====
-- The chain that `stride_initialize` leaves.
use native.Mathlib.Nat.{mul-le-mul_right, mul_comm}
use native.Mathlib.Numerals.{add-one}
use mathlib.Core.Path.{subst}
use repo_support_tools.Base.{
  ℕ, zero, suc, ◌+◌, ◌-◌, ◌*◌, ◌≤◌, ◌<◌, ◌≡◌, sym, ap, true, false, ltb, lt→ltb, arith, mul_inj,
}
use repo_support_tools.Memory.Chain.{Cells, store}
use repo_support_tools.Memory.Chain.Ring.{next, link, link-IsRing, IsRing}
use repo_support_tools.Memory.Stride.{stride_loop, stride_layout}

-- The offset of the place `t`.
abbrev pub place : ℕ → ℕ → ℕ
place stride t = t * stride

module _ (range stride n : ℕ) (pos : 0 < stride) (last : n * stride < range)
    (full : range ≤ suc n * stride) where
  -- From place `t` on the loop and its last store link the places that are left.
  stride_loop-link :
      (fuel t k : ℕ) (cells : Cells)
      → t + k ≡ n
      → k < fuel
      → (let (i, cells') = stride_loop fuel range stride (suc t * stride) cells in
          store (i - stride) 0 cells')
        ≡ link (place stride) (suc n) t (suc k) cells
  unfolding stride_loop link
  stride_loop-link zero t k cells e h = absurd (omega arith)
  stride_loop-link (suc fuel) t zero cells e h =
      let same : t ≡ n = omega arith in
      let stop : ltb (suc t * stride) range ≡ false = (rw same (ground (arith, full))) in
      let back : suc t * stride - stride ≡ t * stride = omega arith in
      let closing : next (suc n) t ≡ 0 = ground arith in
      rw (stop, back, closing) (ap (λ v. store (t * stride) v cells) (omega arith))
  stride_loop-link (suc fuel) t (suc k) cells e h =
      let inside : suc t * stride ≤ n * stride = mul-le-mul_right stride (omega arith) in
      let go : ltb (suc t * stride) range ≡ true = lt→ltb (suc t * stride) range (omega arith) in
      let back : suc t * stride - stride ≡ t * stride = omega arith in
      let forward : suc t * stride + stride ≡ suc (suc t) * stride = omega arith in
      let successor : next (suc n) t ≡ suc t = ground arith in
      rw (go, back, forward, successor, add-one t)
        (stride_loop-link fuel (suc t) k (store (t * stride) (suc t * stride) cells) (omega arith)
          (omega arith))

  distinct : (s t : ℕ) → s < suc n → t < suc n → place stride s ≡ place stride t → s ≡ t
  distinct s t hs ht e = mul_inj s t stride pos e

  enough : n < range
  enough = omega (arith, mul-le-mul_right {m = 1} {n = stride} n (omega arith), mul_comm n stride)

  -- The stores of `stride_initialize` leave a ring through every multiple of the stride below `range`: each
  -- points to the next, and the last to the first. The stride is not 0, and `n` is the number of
  -- the last multiple.
  pub stride_layout-IsRing :
      (cells : Cells) → IsRing (place stride) (suc n) (stride_layout range stride cells)
  unfolding stride_layout
  stride_layout-IsRing cells =
      let first : suc 0 * stride ≡ stride = omega arith in
      subst (IsRing (place stride) (suc n))
        (sym (rw first at (stride_loop-link range 0 n cells (omega arith) enough)))
        (link-IsRing (place stride) (suc n) distinct cells)
