-- ===== src/Examples/Statistics.antt =====
-- The statistics at concrete arrays.
use repo_support_tools.Examples.Fractions.{fractions}
use repo_support_tools.Statistics.Spread.{uint64_variance, over_rest}
use repo_support_tools.Statistics.Spread.Squares.{exact_squares, uint64_variance-exact_squares}
use repo_support_tools.Base.{ℕ, ◌+◌, ◌^◌, ◌≡◌, refl, List, [], ◌∷◌, arith, some}
use repo_support_tools.Base.Int.{pos, negsuc, ◌+ℤ◌}
use repo_support_tools.Statistics.{
  uint64_sum, uint64_mean, uint64_median, int_median, checked, divide,
}
use repo_support_tools.Statistics.Sort.{qsort, place, uint64_compare, int_compare}

abbrev sample : List ℕ
sample = 5 ∷ 9 ∷ 2 ∷ 8 ∷ []

uint64_median-sample : uint64_median sample ≡ 6
unfolding uint64_median qsort place uint64_compare
uint64_median-sample = refl

int_median-sample : int_median (pos 5 ∷ negsuc 8 ∷ negsuc 1 ∷ pos 8 ∷ []) ≡ some (pos 1)
unfolding int_median qsort place int_compare checked divide ◌+ℤ◌
int_median-sample = refl

abbrev large : List ℕ
large = 2 ^ 63 ∷ (2 ^ 63 + 2) ∷ []

uint64_variance-exact_squares_example :
    uint64_variance fractions (5 ∷ 9 ∷ 1 ∷ [])
    ≡ some (over_rest fractions (exact_squares fractions 5 (0, 1) (5 ∷ 9 ∷ 1 ∷ [])) 3)
unfolding uint64_mean uint64_sum
uint64_variance-exact_squares_example =
    uint64_variance-exact_squares fractions (5 ∷ 9 ∷ 1 ∷ []) 5 refl (omega arith)
      ((omega arith, omega arith), ((omega arith, omega arith), ((omega arith, omega arith), tt)))
