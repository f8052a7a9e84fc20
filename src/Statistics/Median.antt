-- ===== src/Statistics/Median.antt =====
-- The medians of lmbench3/src/lib_stats.c: order does not matter, and the result lies in the range
-- of the values unless the sum of the two middle ones overflows.
use repo_support_tools.Base.{
  ℕ, ◌-◌, ◌*◌, ◌/◌, ◌%◌, ◌^◌, ◌≤◌, ◌<◌, ◌≡◌, refl, sym, ap, ◌∙◌, List, [], ◌∷◌, Bool, false, ltb,
  ◌==◌, if◌then◌else◌, length, get_or, All, All-get_or, All-imp, arith,
}
use repo_support_tools.Base.Int.{pos, ltb_ℤ}
use repo_support_tools.Statistics.{uint64_median}
use repo_support_tools.Statistics.Sort.{qsort, uint64_compare, place, length-qsort, All-qsort}
use mathlib.Core.List.{Perm, Permᴰ}
use mathlib.Core.List.Perm
use mathlib.Core.List
use mathlib.Core.Logic.{∥∥₁_elim}
use native.Mathlib.Nat.{ℕ_set}

abbrev above : ℕ → ℕ → Bool
above x y = ltb_ℤ (pos 0) (uint64_compare y x)

above-ltb : (x y : ℕ) → above x y ≡ ltb x y
unfolding uint64_compare
above-ltb x y = ground arith

place-cons :
    (x y : ℕ) (l : List ℕ)
    → place uint64_compare x (y ∷ l) ≡ (if ltb x y then x ∷ y ∷ l else y ∷ place uint64_compare x l)
unfolding place
place-cons x y l = rw above-ltb

place-nil : (x : ℕ) → place uint64_compare x [] ≡ x ∷ []
unfolding place
place-nil x = refl

place-place :
    (x y : ℕ) (l : List ℕ)
    → place uint64_compare x (place uint64_compare y l)
      ≡ place uint64_compare y (place uint64_compare x l)
place-place x y [] = ground (arith, place-nil x, place-nil y, place-cons x y [], place-cons y x [])
place-place x y (z ∷ l) = ground (
  arith,
  place-cons x z l,
  place-cons y z l,
  place-cons x y (z ∷ l),
  place-cons y x (z ∷ l),
  place-cons x z (place uint64_compare y l),
  place-cons y z (place uint64_compare x l),
  place-place x y l,
)

qsort-eq_of_permᴰ : {l r : List ℕ} → Permᴰ l r → qsort uint64_compare l ≡ qsort uint64_compare r
unfolding qsort
qsort-eq_of_permᴰ Permᴰ.nil = refl
qsort-eq_of_permᴰ (Permᴰ.cons e p) = rw (e, qsort-eq_of_permᴰ p)
qsort-eq_of_permᴰ (Permᴰ.swap {a = a} {b = b} {l = l} e e') =
    rw (← e, ← e') (place-place a b (qsort uint64_compare l))
qsort-eq_of_permᴰ (Permᴰ.trans p q) = qsort-eq_of_permᴰ p ∙ qsort-eq_of_permᴰ q

-- Sorting forgets the order of the array.
pub qsort-eq_of_perm : {l r : List ℕ} → Perm l r → qsort uint64_compare l ≡ qsort uint64_compare r
qsort-eq_of_perm {l} {r} p =
    ∥∥₁_elim p (List.is_set ℕ_set (qsort uint64_compare l) (qsort uint64_compare r))
      qsort-eq_of_permᴰ

-- `uint64_median` does not depend on the order of the values.
pub uint64_median-perm : {l r : List ℕ} → Perm l r → uint64_median l ≡ uint64_median r
unfolding uint64_median
uint64_median-perm {l} {r} p =
    let same_length : length l ≡ length r =
      sym (length-qsort uint64_compare l)
      ∙ ap length (qsort-eq_of_perm p)
      ∙ length-qsort uint64_compare r in
    rw (qsort-eq_of_perm p, same_length)

module _ (lo hi : ℕ) (l : List ℕ) (within : All (λ v. (lo ≤ v) × (v ≤ hi)) l) where
  sorted_within :
      (i : ℕ)
      → i < length l
      → (lo ≤ get_or (qsort uint64_compare l) i 0) × (get_or (qsort uint64_compare l) i 0 ≤ hi)
  sorted_within i h =
      All-get_or (λ v. (lo ≤ v) × (v ≤ hi)) (qsort uint64_compare l) i 0
        (All-qsort (λ v. (lo ≤ v) × (v ≤ hi)) l within)
        (omega (arith, length-qsort uint64_compare l))

  -- The median of values between `lo` and `hi` is between them too, if there is a value and twice
  -- the bound fits 64 bits.
  pub uint64_median_bounds :
      0 < length l → 2 * hi < 2 ^ 64 → (lo ≤ uint64_median l) × (uint64_median l ≤ hi)
  unfolding uint64_median
  uint64_median_bounds some_value small =
      ground (arith, sorted_within (length l / 2), sorted_within (length l / 2 - 1))

uint64_median_wraps :
    (l : List ℕ)
    → All (λ v. (2 ^ 63 ≤ v) × (v ≤ 2 ^ 64 - 1)) l
    → 0 < length l
    → length l % 2 ≡ 0
    → uint64_median l < 2 ^ 63
unfolding uint64_median
uint64_median_wraps l within some_value even =
    let is_even : (length l % 2 == 1) ≡ false = ground arith in
    let not_empty : (length l == 0) ≡ false = ground arith in
    rw (not_empty, is_even)
      (omega (
        arith,
        sorted_within (2 ^ 63) (2 ^ 64 - 1) l within (length l / 2) (omega arith),
        sorted_within (2 ^ 63) (2 ^ 64 - 1) l within (length l / 2 - 1) (omega arith),
      ))

-- The median of an even number of values, all of them 2^63 or more, is below every one of them: the
-- sum of the two middle values wraps.
pub uint64_median_overflow :
    (l : List ℕ)
    → All (λ v. (2 ^ 63 ≤ v) × (v ≤ 2 ^ 64 - 1)) l
    → 0 < length l
    → length l % 2 ≡ 0
    → All (λ v. uint64_median l < v) l
uint64_median_overflow l within some_value even =
    All-imp (λ v. (2 ^ 63 ≤ v) × (v ≤ 2 ^ 64 - 1)) (λ v. uint64_median l < v) l
      (λ v h. let low = wrapped in omega arith) within
  where
    wrapped : uint64_median l < 2 ^ 63
    wrapped = uint64_median_wraps l within some_value even
