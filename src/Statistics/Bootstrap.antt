-- ===== src/Statistics/Bootstrap.antt =====
-- The bootstrap estimates of lmbench3/src/lib_stats.c. `rand k` is what the `k`-th call of `rand`
-- gives, and a `stat` is the function that the caller hands over.
use repo_support_tools.Base.{ℕ, zero, suc, ◌+◌, ◌-◌, ◌%◌, List, [], ◌∷◌, length, get_or, map}
use repo_support_tools.Base.Int.{ℤ, pos}
use repo_support_tools.Doubles.{Doubles}
use repo_support_tools.Statistics.Spread.{double_sum, double_squares}

-- `BOOTSTRAP_COUNT`
abbrev pub bootstrap_count : ℕ
bootstrap_count = 200

module _ {A : Type 0} (rand : ℕ → ℕ) (blank : A) where
  -- `samples[j] = values[rand() % size]`, with `k` rounds left
  unfoldable pub sample : List A → (calls k : ℕ) → List A
  sample values calls zero = []
  sample values calls (suc k) =
      get_or values (rand calls % length values) blank ∷ sample values (calls + 1) k

  -- the samples of the `k` rounds that are left
  unfoldable pub samples : List A → (calls k : ℕ) → List (List A)
  unfolding sample
  samples values calls zero = []
  samples values calls (suc k) =
      sample values calls (length values) ∷ samples values (calls + length values) k

module _ (f : Doubles) (sqrt : f.D → f.D) (rand : ℕ → ℕ) where
  open f use {D, of_ℕ, of_ℤ, div}

  -- the spread of the statistics of the samples
  abbrev pub spread_of : List D → D
  spread_of s =
      let mean = div (double_sum f (of_ℕ 0) s) (of_ℕ bootstrap_count) in
      sqrt (div (double_squares f mean (of_ℕ 0) s) (of_ℕ (bootstrap_count - 1)))

  -- An empty array has no element to draw, but no round draws one either.
  unfoldable pub int_bootstrap_stderr : (stat : List ℤ → ℤ) → List ℤ → D
  unfolding samples
  int_bootstrap_stderr stat values =
      spread_of (map (λ s. of_ℤ (stat s)) (samples rand (pos 0) values 0 bootstrap_count))

  unfoldable pub uint64_bootstrap_stderr : (stat : List ℕ → ℕ) → List ℕ → D
  unfolding samples
  uint64_bootstrap_stderr stat values =
      spread_of (map (λ s. of_ℕ (stat s)) (samples rand 0 values 0 bootstrap_count))

  unfoldable pub double_bootstrap_stderr : (stat : List D → D) → List D → D
  unfolding samples
  double_bootstrap_stderr stat values =
      spread_of (map stat (samples rand (of_ℕ 0) values 0 bootstrap_count))
