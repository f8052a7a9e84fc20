-- ===== src/Mhz.antt =====
-- lmbench3/src/mhz.c: the clock rate as the greatest common divisor of the times of several loops.
-- An array is the list of its elements. No time is NaN. `(int) a` of a `double` is a parameter; no
-- `int` overflows, as a clock rate is far below 2^31.
pub mod Filtered
pub mod Crossed
pub mod Common
use repo_support_tools.Base.{
  ℕ, zero, suc, ◌+◌, ◌-◌, ◌*◌, ◌/◌, ◌%◌, ◌^◌, Bool, true, false, ◌&&◌, ◌||◌, not, List, [], ◌∷◌,
  ◌++◌, map, Option, none, some, length, get_or, set, take, ltb, leb, ◌==◌, if◌then◌else◌,
}
use repo_support_tools.Base.Int.{ℤ, pos, negsuc, ltb_ℤ, ◌-ℤ◌}
use repo_support_tools.Doubles.{Doubles}
use repo_support_tools.Statistics.Sort.{qsort}
use repo_support_tools.Statistics.Regression.{regression_null}
use repo_support_tools.Timing.Results.{Results, Value, blank, tries, insertsort, insertinit}

abbrev pub differs : ℤ → ℤ → Bool
differs a b = ltb_ℤ a b || ltb_ℤ b a

-- the variables of `mode`
pub record Mode : Type 0 where
  pub mode : ℤ
  pub n_mode : ℕ
  pub curr : ℤ
  pub n_curr : ℕ

-- a round of the loop of `mode`, on a rounded value
unfoldable pub count_value : ℤ → Mode → Mode
count_value v m =
    let n = if differs m.curr v then 1 else suc m.n_curr in
    if ltb m.n_mode n
    then record { mode = v; n_mode = n; curr = v; n_curr = n }
    else record m { curr = v; n_curr = n }

unfoldable pub count_values : List ℤ → Mode → Mode
unfolding count_value
count_values [] m = m
count_values (v ∷ vs) m = count_values vs (count_value v m)

-- `mode` on the rounded values of the sorted array: `none` for no values, where the source reads an
-- element that is not there
unfoldable pub mode_of : List ℤ → Option ℤ
unfolding count_values
mode_of [] = none
mode_of (v ∷ vs) =
    some ((count_values vs (record { mode = v; n_mode = 1; curr = v; n_curr = 1 })).mode)

module _ (f : Doubles) (sqrt : f.D → f.D) (to_int : f.D → ℤ) where
  open f use {D, of_ℕ, of_ℤ, add, sub, mul, div, lt}

  -- `double_compare` and `double_min` of lib_stats.c
  unfoldable pub double_compare : D → D → ℤ
  double_compare a b = if lt a b then negsuc 0 else if lt b a then pos 1 else pos 0

  unfoldable pub double_min : D → List D → D
  double_min min [] = min
  double_min min (v ∷ vs) = double_min (if lt v min then v else min) vs

  abbrev pub sorted : List D → List D
  sorted values = qsort double_compare values

  -- the median, as `filter_data` and `classes` compute it
  unfoldable pub middle : List D → D
  unfolding double_compare
  middle values =
      let d = sorted values in
      let size = length values in
      let upper = get_or d (size / 2) (of_ℕ 0) in
      if ltb 0 size && (size % 2 == 0)
      then div (add upper (get_or d (size / 2 - 1) (of_ℕ 0))) (of_ℕ 2)
      else upper

  -- `0.05 * median < values[i] && values[i] < 20.0 * median`
  abbrev pub is_inside : (median v : D) → Bool
  is_inside median v = lt (mul (div (of_ℕ 5) (of_ℕ 100)) median) v && lt v (mul (of_ℕ 20) median)

  -- the loop of `filter_data` from `i` on, with `k` values left: `tests` and the array
  unfoldable pub filter_loop : (median : D) (k i tests : ℕ) → List D → ℕ × List D
  filter_loop median zero i tests values = (tests, values)
  filter_loop median (suc k) i tests values =
      let v = get_or values i (of_ℕ 0) in
      let keep =
        filter_loop median k (suc i) (suc tests)
          (if ltb tests i then set values tests v else values) in
      let skip = filter_loop median k (suc i) tests values in
      if is_inside median v then keep else skip

  unfoldable pub filter_data : List D → ℕ × List D
  unfolding middle filter_loop
  filter_data values = filter_loop (middle values) (length values) 0 0 values

  -- the loop of `classes`, on the elements behind `d[i-1]`
  unfoldable pub count_classes : (median last : D) → List D → ℕ → ℕ
  count_classes median last [] classid = classid
  count_classes median last (d ∷ ds) classid =
      count_classes median d ds
        (if lt (mul (div (of_ℕ 5) (of_ℕ 100)) median) (sub d last) then suc classid else classid)

  unfoldable pub classes : List D → ℕ
  unfolding middle count_classes
  classes values = elim (sorted values) [ [] ↦ 1 | d ∷ ds ↦ count_classes (middle values) d ds 1 ]

  unfoldable pub mode : List D → Option ℤ
  unfolding mode_of double_compare
  mode values = mode_of (map (λ v. to_int (add v (div (of_ℕ 1) (of_ℕ 2)))) (sorted values))

  abbrev pub absolute : D → D
  absolute a = if lt a (of_ℕ 0) then sub (of_ℕ 0) a else a

  -- the inner loop of `cross_values`
  unfoldable pub differences : D → List D → List D
  differences v [] = []
  differences v (w ∷ ws) = absolute (sub v w) ∷ differences v ws

  unfoldable pub cross_values : List D → List D
  unfolding differences
  cross_values [] = []
  cross_values (v ∷ vs) = v ∷ (differences v vs ++ cross_values vs)

  -- the points of the regression for a guess: the number of instructions, and the time
  unfoldable pub guess : (count : ℕ) (min : D) → List D → List (D × D)
  guess count min [] = []
  guess count min (y ∷ ys) =
      let m = to_int (add (div (mul (of_ℕ count) y) min) (div (of_ℕ 1) (of_ℕ 2))) in
      (of_ℤ m, y) ∷ guess count min ys

  -- `for (count = 1; count < MAX_COUNT; ++count)` behind its first round, with `k` rounds left
  unfoldable pub guesses : (y : List D) (min : D) (k count : ℕ) (result min_chi2 : D) → D
  unfolding guess
  guesses y min zero count result min_chi2 = result
  guesses y min (suc k) count result min_chi2 =
      let l = regression_null f sqrt (guess count min y) in
      let better = lt (mul (of_ℕ (count * count)) l.chi2) min_chi2 in
      guesses y min k (suc count) (if better then l.b else result)
        (if better then l.chi2 else min_chi2)

  -- `y` has the point at the origin last
  unfoldable pub gcd_points : List D → List D
  unfolding cross_values
  gcd_points values = cross_values values ++ of_ℕ 0 ∷ []

  -- `gcd`: there is at least one value
  unfoldable pub gcd : List D → D
  unfolding gcd_points double_min guess guesses
  gcd [] = of_ℕ 0
  gcd (v ∷ vs) =
      let y = gcd_points (v ∷ vs) in
      let min = double_min v vs in
      let l = regression_null f sqrt (guess 1 min y) in guesses y min 4 2 l.b l.chi2

  -- `data` for the tests in `subset`, from the test `j` on: the time that is `i` places from the least
  unfoldable pub select : (i subset j : ℕ) → List Results → List D
  select i subset j [] = []
  select i subset j (r ∷ rs) =
      let rest = select i subset (suc j) rs in
      let v = get_or r.v (r.count - 1 - i) blank in
      if (subset / 2 ^ j % 2 == 1) && ltb (tries / 2) r.count
      then div (of_ℕ v.u) (of_ℕ v.n) ∷ rest
      else rest

  -- `results`, from `subset` on, with `k` subsets left
  unfoldable pub results_from : (r : List Results) (i k subset : ℕ) → List D
  unfolding select filter_data classes gcd
  results_from r i zero subset = []
  results_from r i (suc k) subset =
      let rest = results_from r i k (suc subset) in
      let chosen = select i subset 0 r in
      let (n, values) = filter_data chosen in
      let filtered = take n values in
      if ltb (length chosen) 2 || ltb n 2 || ltb (classes filtered) 2
      then rest
      else div (of_ℕ 1) (gcd filtered) ∷ rest

  abbrev pub abs_difference : ℤ → ℤ → ℤ
  abs_difference a b = if ltb_ℤ a b then b -ℤ a else a -ℤ b

  -- `r` holds the results of the tests. `none` where no subset has a result.
  unfoldable pub compute_mhz : List Results → Option ℤ
  unfolding results_from mode
  compute_mhz r =
      let subsets = 2 ^ length r in
      elim (mode (results_from r 0 subsets 0)) [
        | none ↦ none
        | some first ↦ elim (mode (results_from r 1 subsets 0)) [
          | none ↦ none
          | some second ↦ some (
              let gap = abs_difference first second in
              if not (lt (div (of_ℕ 1) (of_ℕ 100)) (div (of_ℤ gap) (of_ℤ first)))
                || not (ltb_ℤ (pos 1) gap)
              then first
              else negsuc 0)
        ]
      ]

  -- the loop over the tests for one `j`, with what `gettime` and `get_n` give
  unfoldable pub insert_times : List Value → List Results → List Results
  insert_times [] rs = rs
  insert_times (m ∷ ms) [] = []
  insert_times (m ∷ ms) (r ∷ rs) = insertsort f m.u m.n r ∷ insert_times ms rs

  unfoldable pub collect_times : List (List Value) → List Results → List Results
  unfolding insert_times
  collect_times [] rs = rs
  collect_times (ms ∷ rounds) rs = collect_times rounds (insert_times ms rs)

  -- The three efforts of `main`, where `times` has the runs of each: the rate, and the data that are
  -- saved. The rate is -1 at first.
  unfoldable pub efforts :
      (times : List (List (List Value))) (mhz : ℤ) → List Results → Option (ℤ × List Results)
  unfolding collect_times compute_mhz
  efforts [] mhz rs = some (mhz, rs)
  efforts (rounds ∷ times) mhz rs =
      let rs' = collect_times rounds (map insertinit rs) in
      if ltb_ℤ mhz (pos 0)
      then elim (compute_mhz rs') [ none ↦ none | some mhz' ↦ efforts times mhz' rs' ]
      else some (mhz, rs)
