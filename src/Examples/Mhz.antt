-- ===== src/Examples/Mhz.antt =====
-- The clock rate of lmbench3/src/mhz.c at concrete inputs.
use repo_support_tools.Base.{ℕ, ◌≡◌, List, [], ◌∷◌, refl}
use repo_support_tools.Base.Int.{ℤ, pos}
use repo_support_tools.Statistics.Sort.{qsort, place}
use repo_support_tools.Mhz.{filter_data}
use repo_support_tools.Examples.Fractions.{fractions}

-- Fractions have no square root and no negative value here; these theorems use neither.
abbrev same : ℕ × ℕ → ℕ × ℕ
same p = p

abbrev to_int : ℕ × ℕ → ℤ
to_int p = pos (fractions.to_u64 p)

-- The time 500 is more than twenty times the median.
abbrev values : List (ℕ × ℕ)
values = (3, 1) ∷ (500, 1) ∷ (4, 1) ∷ []

filtered : (filter_data fractions same to_int values).0 ≡ 2
unfolding filter_data qsort place
filtered = refl
