-- ===== src/Statistics.antt =====
-- lmbench3/src/lib_stats.c: the order statistics and means of arrays of `int` and `uint64`. An array
-- of `size` elements is the list of them. `uint64` wraps; on a signed overflow, which C leaves
-- undefined, on a division by 0 and on a read past the array the result is `none`.
pub mod Sort
pub mod Median
pub mod Extremes
pub mod Spread
pub mod Bootstrap
pub mod Regression
use repo_support_tools.Base.{
  ℕ, suc, ◌+◌, ◌-◌, ◌*◌, ◌/◌, ◌%◌, ◌^◌, List, [], ◌∷◌, Bool, true, false, ltb, leb, ◌==◌,
  if◌then◌else◌, Option, none, some, length, get_or, ◌&&◌,
}
use repo_support_tools.Base.Int.{ℤ, pos, negsuc, ◌+ℤ◌, ltb_ℤ}
use repo_support_tools.Statistics.Sort.{qsort, uint64_compare, int_compare}

-- an `int` result, if it fits 32 bits
unfoldable pub checked : ℤ → Option ℤ
checked (pos n) = if ltb n (2 ^ 31) then some (pos n) else none
checked (negsuc n) = if ltb n (2 ^ 31) then some (negsuc n) else none

-- C division of an `int` by a positive `int`: towards 0
unfoldable pub divide : ℤ → ℕ → ℤ
divide (pos n) d = pos (n / d)
divide (negsuc n) d = if suc n / d == 0 then pos 0 else negsuc (suc n / d - 1)

unfoldable pub int_median : List ℤ → Option ℤ
int_median values =
    let sorted = qsort int_compare values in
    let size = length values in
    if size == 0
    then some (pos 0)
    else if size % 2 == 1
    then some (get_or sorted (size / 2) (pos 0))
    else elim (checked (get_or sorted (size / 2 - 1) (pos 0) +ℤ get_or sorted (size / 2) (pos 0))) [
      | none ↦ none
      | some s ↦ some (divide s 2)
    ]

unfoldable pub uint64_median : List ℕ → ℕ
uint64_median values =
    let sorted = qsort uint64_compare values in
    let size = length values in
    if size == 0
    then 0
    else if size % 2 == 1
    then get_or sorted (size / 2) 0
    else (get_or sorted (size / 2 - 1) 0 + get_or sorted (size / 2) 0) % 2 ^ 64 / 2

-- the loops `sum += values[i]`
unfoldable pub int_sum : ℤ → List ℤ → Option ℤ
int_sum sum [] = some sum
int_sum sum (v ∷ vs) = elim (checked (sum +ℤ v)) [ none ↦ none | some s ↦ int_sum s vs ]

unfoldable pub int_mean : List ℤ → Option ℤ
int_mean values =
    if length values == 0
    then none
    else elim (int_sum (pos 0) values) [ none ↦ none | some s ↦ some (divide s (length values)) ]

unfoldable pub uint64_sum : ℕ → List ℕ → ℕ
uint64_sum sum [] = sum
uint64_sum sum (v ∷ vs) = uint64_sum ((sum + v) % 2 ^ 64) vs

unfoldable pub uint64_mean : List ℕ → Option ℕ
uint64_mean values = if length values == 0 then none else some (uint64_sum 0 values / length values)

-- the loops of `*_min` and `*_max` from index 1
unfoldable pub int_min_from : ℤ → List ℤ → ℤ
int_min_from min [] = min
int_min_from min (v ∷ vs) = int_min_from (if ltb_ℤ v min then v else min) vs

unfoldable pub int_min : List ℤ → Option ℤ
int_min [] = none
int_min (v ∷ vs) = some (int_min_from v vs)

unfoldable pub int_max_from : ℤ → List ℤ → ℤ
int_max_from max [] = max
int_max_from max (v ∷ vs) = int_max_from (if ltb_ℤ max v then v else max) vs

unfoldable pub int_max : List ℤ → Option ℤ
int_max [] = none
int_max (v ∷ vs) = some (int_max_from v vs)

unfoldable pub uint64_min_from : ℕ → List ℕ → ℕ
uint64_min_from min [] = min
uint64_min_from min (v ∷ vs) = uint64_min_from (if ltb v min then v else min) vs

unfoldable pub uint64_min : List ℕ → Option ℕ
uint64_min [] = none
uint64_min (v ∷ vs) = some (uint64_min_from v vs)

unfoldable pub uint64_max_from : ℕ → List ℕ → ℕ
uint64_max_from max [] = max
uint64_max_from max (v ∷ vs) = uint64_max_from (if ltb max v then v else max) vs

unfoldable pub uint64_max : List ℕ → Option ℕ
uint64_max [] = none
uint64_max (v ∷ vs) = some (uint64_max_from v vs)
