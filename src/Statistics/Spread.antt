-- ===== src/Statistics/Spread.antt =====
-- The statistics of lmbench3/src/lib_stats.c that work in `double`: the versions for arrays of
-- doubles, variances, moments, skew and kurtosis. An `int` that overflows gives `none`, a `uint64`
-- wraps. `sqrt` is the function of the C library.
pub mod Squares
use repo_support_tools.Base.{
  ℕ, zero, suc, ◌+◌, ◌-◌, ◌*◌, ◌/◌, ◌%◌, ◌^◌, List, [], ◌∷◌, Bool, true, false, ◌==◌, if◌then◌else◌,
  Option, none, some, length, get_or,
}
use repo_support_tools.Base.Int.{ℤ, pos, negsuc, ◌-ℤ◌, ◌*ℤ◌}
use repo_support_tools.Doubles.{Doubles}
use repo_support_tools.Statistics.{checked, int_mean, uint64_mean}
use repo_support_tools.Statistics.Sort.{qsort}

-- `values[i] - mean` and its square on `uint64`
abbrev pub deviation : (v mean : ℕ) → ℕ
deviation v mean = (v + 2 ^ 64 - mean) % 2 ^ 64

unfoldable pub squared : (v mean : ℕ) → ℕ
squared v mean = deviation v mean * deviation v mean % 2 ^ 64

module _ (f : Doubles) where
  open f use {D, of_ℕ, of_ℤ, add, sub, mul, div, lt}

  unfoldable pub double_compare : D → D → ℤ
  double_compare a b = if lt a b then negsuc 0 else if lt b a then pos 1 else pos 0

  unfoldable pub double_median : List D → D
  unfolding double_compare
  double_median values =
      let sorted = qsort double_compare values in
      let size = length values in
      if size == 0
      then of_ℕ 0
      else if size % 2 == 1
      then get_or sorted (size / 2) (of_ℕ 0)
      else div (add (get_or sorted (size / 2 - 1) (of_ℕ 0)) (get_or sorted (size / 2) (of_ℕ 0)))
          (of_ℕ 2)

  unfoldable pub double_sum : D → List D → D
  double_sum sum [] = sum
  double_sum sum (v ∷ vs) = double_sum (add sum v) vs

  unfoldable pub double_mean : List D → D
  unfolding double_sum
  double_mean values = div (double_sum (of_ℕ 0) values) (of_ℕ (length values))

  unfoldable pub double_min_from : D → List D → D
  double_min_from min [] = min
  double_min_from min (v ∷ vs) = double_min_from (if lt v min then v else min) vs

  unfoldable pub double_min : List D → Option D
  unfolding double_min_from
  double_min [] = none
  double_min (v ∷ vs) = some (double_min_from v vs)

  unfoldable pub double_max_from : D → List D → D
  double_max_from max [] = max
  double_max_from max (v ∷ vs) = double_max_from (if lt max v then v else max) vs

  unfoldable pub double_max : List D → Option D
  unfolding double_max_from
  double_max [] = none
  double_max (v ∷ vs) = some (double_max_from v vs)

  -- the sums of the squared deviations
  unfoldable pub int_squares : (mean : ℤ) → D → List ℤ → Option D
  int_squares mean sum [] = some sum
  int_squares mean sum (v ∷ vs) = elim (checked (v -ℤ mean)) [
    | none ↦ none
    | some d ↦ elim (checked (d *ℤ d)) [
      | none ↦ none
      | some q ↦ int_squares mean (add sum (of_ℤ q)) vs
    ]
  ]

  unfoldable pub uint64_squares : (mean : ℕ) → D → List ℕ → D
  unfolding squared
  uint64_squares mean sum [] = sum
  uint64_squares mean sum (v ∷ vs) = uint64_squares mean (add sum (of_ℕ (squared v mean))) vs

  unfoldable pub double_squares : (mean : D) → D → List D → D
  double_squares mean sum [] = sum
  double_squares mean sum (v ∷ vs) =
      double_squares mean (add sum (mul (sub v mean) (sub v mean))) vs

  -- `sum / (double)(size - 1)`
  abbrev pub over_rest : D → (size : ℕ) → D
  over_rest sum size = div sum (of_ℤ (pos size -ℤ pos 1))

  unfoldable pub int_variance : List ℤ → Option D
  unfolding int_squares
  int_variance values = elim (int_mean values) [
    | none ↦ none
    | some mean ↦ elim (int_squares mean (of_ℕ 0) values) [
      | none ↦ none
      | some sum ↦ some (over_rest sum (length values))
    ]
  ]

  unfoldable pub uint64_variance : List ℕ → Option D
  unfolding uint64_squares
  uint64_variance values = elim (uint64_mean values) [
    | none ↦ none
    | some mean ↦ some (over_rest (uint64_squares mean (of_ℕ 0) values) (length values))
  ]

  unfoldable pub double_variance : List D → D
  unfolding double_squares double_mean
  double_variance values =
      over_rest (double_squares (double_mean values) (of_ℕ 0) values) (length values)

  -- `m = diff; for (j = 1; j < moment; ++j) m *= diff;`, with `k` rounds left
  unfoldable pub power : (diff m : D) (k : ℕ) → D
  power diff m zero = m
  power diff m (suc k) = power diff (mul m diff) k

  unfoldable pub powers : (moment : ℕ) → D → List D → D
  unfolding power
  powers moment sum [] = sum
  powers moment sum (d ∷ ds) = powers moment (add sum (power d d (moment - 1))) ds

  -- `double diff = values[i] - mean;`
  unfoldable pub int_diffs : (mean : ℤ) → List ℤ → Option (List D)
  int_diffs mean [] = some []
  int_diffs mean (v ∷ vs) = elim (checked (v -ℤ mean)) [
    | none ↦ none
    | some d ↦ elim (int_diffs mean vs) [ none ↦ none | some ds ↦ some (of_ℤ d ∷ ds) ]
  ]

  unfoldable pub uint64_diffs : (mean : ℕ) → List ℕ → List D
  uint64_diffs mean [] = []
  uint64_diffs mean (v ∷ vs) = of_ℕ (deviation v mean) ∷ uint64_diffs mean vs

  unfoldable pub double_diffs : (mean : D) → List D → List D
  double_diffs mean [] = []
  double_diffs mean (v ∷ vs) = sub v mean ∷ double_diffs mean vs

  unfoldable pub int_moment : (moment : ℕ) → List ℤ → Option D
  unfolding powers int_diffs
  int_moment moment values = elim (int_mean values) [
    | none ↦ none
    | some mean ↦ elim (int_diffs mean values) [
      | none ↦ none
      | some ds ↦ some (div (powers moment (of_ℕ 0) ds) (of_ℕ (length values)))
    ]
  ]

  unfoldable pub uint64_moment : (moment : ℕ) → List ℕ → Option D
  unfolding powers uint64_diffs
  uint64_moment moment values = elim (uint64_mean values) [
    | none ↦ none
    | some mean ↦
        some (div (powers moment (of_ℕ 0) (uint64_diffs mean values)) (of_ℕ (length values)))
  ]

  unfoldable pub double_moment : (moment : ℕ) → List D → D
  unfolding powers double_diffs double_mean
  double_moment moment values =
      div (powers moment (of_ℕ 0) (double_diffs (double_mean values) values)) (of_ℕ (length values))

  -- `moment4 / (variance * variance) - 3`
  abbrev pub kurtosis_of : (variance moment4 : D) → D
  kurtosis_of variance moment4 = sub (div moment4 (mul variance variance)) (of_ℕ 3)

  -- a result of two parts that may be missing
  abbrev pub both : (D → D → D) → Option D → Option D → Option D
  both g (some a) (some b) = some (g a b)
  both g none b = none
  both g (some a) none = none

  unfoldable pub int_kurtosis : List ℤ → Option D
  unfolding int_variance int_moment
  int_kurtosis values = both kurtosis_of (int_variance values) (int_moment 4 values)

  unfoldable pub uint64_kurtosis : List ℕ → Option D
  unfolding uint64_variance uint64_moment
  uint64_kurtosis values = both kurtosis_of (uint64_variance values) (uint64_moment 4 values)

  unfoldable pub double_kurtosis : List D → D
  unfolding double_variance double_moment
  double_kurtosis values = kurtosis_of (double_variance values) (double_moment 4 values)

  module _ (sqrt : D → D) where
    -- `moment3 / (sigma * sigma * sigma)`, for the variance whose root `sigma` is
    abbrev pub skew_of : (variance moment3 : D) → D
    skew_of variance moment3 =
        let sigma = sqrt variance in div moment3 (mul (mul sigma sigma) sigma)

    unfoldable pub int_stderr : List ℤ → Option D
    int_stderr values = elim (int_variance values) [ none ↦ none | some v ↦ some (sqrt v) ]

    unfoldable pub uint64_stderr : List ℕ → Option D
    uint64_stderr values = elim (uint64_variance values) [ none ↦ none | some v ↦ some (sqrt v) ]

    unfoldable pub double_stderr : List D → D
    double_stderr values = sqrt (double_variance values)

    unfoldable pub int_skew : List ℤ → Option D
    int_skew values = both skew_of (int_variance values) (int_moment 3 values)

    unfoldable pub uint64_skew : List ℕ → Option D
    uint64_skew values = both skew_of (uint64_variance values) (uint64_moment 3 values)

    unfoldable pub double_skew : List D → D
    double_skew values = skew_of (double_variance values) (double_moment 3 values)
