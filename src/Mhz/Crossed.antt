-- ===== src/Mhz/Crossed.antt =====
-- The points of `gcd` of lmbench3/src/mhz.c fit the arrays that are allocated for them.
use repo_support_tools.Base.{
  ℕ, zero, suc, ◌+◌, ◌*◌, ◌≤◌, ◌≡◌, List, [], ◌∷◌, length, length-append, refl, ap, arith,
}
use repo_support_tools.Base.Int.{ℤ}
use repo_support_tools.Doubles.{Doubles}
use repo_support_tools.Mhz.{differences, cross_values, gcd_points}

module _ (f : Doubles) (sqrt : f.D → f.D) (to_int : f.D → ℤ) where
  open f use {D, of_ℕ}

  length-differences : (v : D) (l : List D) → length (differences f sqrt to_int v l) ≡ length l
  unfolding differences
  length-differences v [] = refl
  length-differences v (w ∷ l) = ap suc (length-differences v l)

  length-cross_values :
      (l : List D) → 2 * length (cross_values f sqrt to_int l) ≡ length l * (length l + 1)
  unfolding cross_values
  length-cross_values [] = omega arith
  length-cross_values (v ∷ l) = omega (
    arith,
    length-append (differences f sqrt to_int v l) (cross_values f sqrt to_int l),
    length-differences v l,
    length-cross_values l,
  )

  square_ge : (n : ℕ) → 2 ≤ n → n + 2 ≤ n * n
  square_ge zero h = absurd (omega arith)
  square_ge (suc zero) h = absurd (omega arith)
  square_ge (suc (suc zero)) h = omega arith
  square_ge (suc (suc (suc n))) h = omega (arith, square_ge (suc (suc n)) (omega arith))

  -- `n` values give n * (n + 1) / 2 crossed values, and with the point at the origin they fit the
  -- arrays of n * n elements that are allocated, if there are at least two values.
  pub gcd_points_fit :
      (l : List D)
      → 2 ≤ length l
      → (2 * length (cross_values f sqrt to_int l) ≡ length l * (length l + 1))
        × (length (gcd_points f sqrt to_int l) ≤ length l * length l)
  unfolding gcd_points
  gcd_points_fit l h = (
    length-cross_values l,
    omega (
      arith,
      length-cross_values l,
      length-append (cross_values f sqrt to_int l) (of_ℕ 0 ∷ []),
      square_ge (length l) h,
    ),
  )
