-- ===== src/Lmdd/Histogram.antt =====
-- The latency histograms of lmdd (lmbench3/src/lmdd.c): the code that `main` writes out for reads and
-- for writes, and the part of `done` that prints them. The check of the settings has made `min` at
-- most `max`, so their difference is no negative number. `mills` is the time in milliseconds.
pub mod Buckets
pub mod Rows
use repo_support_tools.Base.{
  ℕ, zero, suc, ◌+◌, ◌*◌, ◌/◌, Bool, Option, none, some, List, [], ◌∷◌, ◌++◌, not, get_or, set,
  if◌then◌else◌, ◌==◌, length,
}
use repo_support_tools.Base.Int.{ℤ, pos, pos_part, ◌+ℤ◌, ◌-ℤ◌, ltb_ℤ}

-- `(max - min) / 10`
abbrev pub step_of : (max min : ℤ) → ℕ
step_of max min = pos_part (max -ℤ min) / 10

-- `for (i = 1; i <= 10; ++i)`, from `i` on with `k` rounds left
unfoldable pub find_bucket : (mills step : ℕ) → ℤ → (i k : ℕ) → Option ℕ
find_bucket mills step min i zero = none
find_bucket mills step min i (suc k) =
    let rest = find_bucket mills step min (i + 1) k in
    if ltb_ℤ (pos mills) (pos (i * step) +ℤ min) then some i else rest

-- the bucket that is counted, or none
unfoldable pub bucket : ℕ → (max min : ℤ) → Option ℕ
unfolding find_bucket
bucket mills max min =
    if not (ltb_ℤ (pos mills) max)
    then some 11
    else if ltb_ℤ (pos mills) min
    then some 0
    else find_bucket mills (step_of max min) min 1 10

-- `hist[i]++`
abbrev pub count_in : Option ℕ → List ℕ → List ℕ
count_in none hist = hist
count_in (some i) hist = set hist i (get_or hist i 0 + 1)

-- a line of the report
pub data Row : Type 0 where
  below : ℤ → ℕ → Row
  between : ℤ → ℤ → ℕ → Row
  above : ℤ → ℕ → Row

-- `if (n) printf(...)`
abbrev pub row_unless_zero : ℕ → Row → List Row
row_unless_zero n r = if n == 0 then [] else r ∷ []

-- `for (i = 1, size = min; i <= 10; i++, size += step)`, from `i` on with `k` rounds left
unfoldable pub middle_rows : List ℕ → (step : ℕ) → (i k : ℕ) → ℤ → List Row
middle_rows hist step i zero size = []
middle_rows hist step i (suc k) size =
    row_unless_zero (get_or hist i 0) (between size (size +ℤ pos step -ℤ pos 1) (get_or hist i 0))
    ++ middle_rows hist step (i + 1) k (size +ℤ pos step)

-- the report of one histogram
unfoldable pub histogram_rows : List ℕ → (max min : ℤ) → List Row
unfolding middle_rows
histogram_rows hist max min =
    row_unless_zero (get_or hist 0 0) (below min (get_or hist 0 0))
    ++ (middle_rows hist (step_of max min) 1 10 min
        ++ row_unless_zero (get_or hist 11 0) (above max (get_or hist 11 0)))
