-- ===== src/Timing/Calibration.antt =====
-- The calibration of lmbench3/src/lib_timing.c: how long a measurement has to take (`compute_enough`
-- and what it calls) and the overheads of the clock and of a loop. `reading k` is what the `k`-th call
-- of `gettimeofday` gives.
pub mod Enough
use repo_support_tools.Base.{
  ℕ, zero, suc, ◌+◌, ◌-◌, ◌*◌, ◌/◌, ◌%◌, ◌^◌, Bool, true, false, ◌&&◌, Option, none, some, List, [],
  ◌∷◌, replicate, ltb, leb, ◌==◌, if◌then◌else◌,
}
use repo_support_tools.Doubles.{Doubles}
use repo_support_tools.Timing.Clock.{Timeval, Clock, start, stop, settime, save_n, gettime, get_n}
use repo_support_tools.Timing.Results.{
  Results, Value, tries, blank, insertsort, insert_all, save_minimum, save_median,
}

-- the clock, the calls of `gettimeofday` so far, and the static variables `N` and `usecs` of `find_N`
pub record Calibration : Type 0 where
  pub clock : Clock
  pub reads : ℕ
  pub work : ℕ
  pub usecs : ℕ

-- a `result_t` on the stack after `insertinit`
abbrev pub empty_results : Results
empty_results = record { count = 0; v = replicate tries blank }

-- `SHORT`
abbrev pub short : ℕ
short = 1000000

abbrev pub possibilities : List ℕ
possibilities = 5000 ∷ 10000 ∷ 50000 ∷ 100000 ∷ []

-- `set_results(r)`: the clock then holds the median time
abbrev pub set_results : Results → Clock → Clock
set_results r c = let v = save_median r in settime v.u (save_n v.n c)

-- `set_results(&r); save_minimum();`: the clock then holds the smallest time
abbrev pub set_minimum : Results → Clock → Clock
set_minimum r c = let v = save_minimum r in settime v.u (save_n v.n (set_results r c))

-- `outer` is the result set in use, which each measurement puts back.
-- `get_enough`, given what `compute_enough` has found
unfoldable pub get_enough : (long_enough e : ℕ) → ℕ
get_enough long_enough e = if ltb e long_enough then long_enough else e

module _ (f : Doubles) (outer : Results) (reading : ℕ → Timeval) where
  open f use {D, of_ℕ, add, sub, mul, div, lt}

  -- The loop over the work reads no clock.
  unfoldable pub duration : Calibration → ℕ × Calibration
  duration s =
      let (usecs, clock) = stop (reading (s.reads + 1)) (start (reading s.reads) s.clock) in
      (usecs, record s { clock = clock; reads = s.reads + 2 })

  -- `for (i = 1; i < TRIES; ++i)`, with `k` rounds left
  unfoldable pub time_loop : (work k : ℕ) → Results → Calibration → Results × Calibration
  unfolding duration
  time_loop work zero r s = (r, s)
  time_loop work (suc k) r s =
      let (usecs, next) = duration s in time_loop work k (insertsort f usecs work r) next

  unfoldable pub time_N : ℕ → Calibration → ℕ × Calibration
  unfolding time_loop
  time_N work s =
      let (r, next) = time_loop work (tries - 1) empty_results s in
      let clock = set_minimum r next.clock in
      (gettime clock, record next { clock = set_results outer clock })

  abbrev pub quotient : ℕ → ℕ → D
  quotient a b = div (of_ℕ a) (of_ℕ b)

  -- `0.98 * enough < usecs && usecs < 1.02 * enough`
  abbrev pub fits : (enough usecs : ℕ) → Bool
  fits enough usecs =
      lt (mul (quotient 98 100) (of_ℕ enough)) (of_ℕ usecs)
      && lt (of_ℕ usecs) (mul (quotient 102 100) (of_ℕ enough))

  -- the work of the next try
  abbrev pub next_work : (enough work usecs : ℕ) → ℕ
  next_work enough work usecs =
      if ltb usecs 1000
      then work * 10 % 2 ^ 64
      else f.to_u64 (add (mul (quotient work usecs) (of_ℕ enough)) (of_ℕ 1))

  -- `usecs = time_N(N);`
  abbrev pub retime : Calibration → Calibration
  retime s = let (usecs, next) = time_N s.work s in record next { usecs = usecs }

  -- the loop over `tries`, with `k` rounds left
  unfoldable pub find_loop : (enough k : ℕ) → Calibration → ℕ × Calibration
  unfolding time_N
  find_loop enough zero s = (0, s)
  find_loop enough (suc k) s =
      let rest =
        find_loop enough k (retime (record s { work = next_work enough s.work s.usecs })) in
      if fits enough s.usecs then (s.work, s) else rest

  unfoldable pub find_N : (enough : ℕ) → Calibration → ℕ × Calibration
  unfolding time_N find_loop
  find_N enough s = find_loop enough 10 (if s.usecs == 0 then retime s else s)

  abbrev pub test_points : List D
  test_points = quotient 1015 1000 ∷ quotient 102 100 ∷ quotient 1035 1000 ∷ []

  -- The loop over the test points. The work is below 2^31, as the cast to `int` asks for.
  unfoldable pub test_loop : (work baseline : ℕ) → List D → Calibration → Bool × Calibration
  unfolding time_N
  test_loop work baseline [] s = (true, s)
  test_loop work baseline (p ∷ ps) s =
      let (usecs, next) = time_N (f.to_u64 (mul (of_ℕ work) p)) s in
      let expected = f.to_u64 (mul (of_ℕ baseline) p) in
      let diff = if ltb usecs expected then expected - usecs else usecs - expected in
      let rest = test_loop work baseline ps next in
      if lt (quotient 25 10000) (quotient diff expected) then (false, next) else rest

  unfoldable pub test_time : (enough : ℕ) → Calibration → Bool × Calibration
  unfolding find_N test_loop time_N
  test_time enough s =
      let (work, found) = find_N enough s in
      let (baseline, next) = time_N work found in
      if work == 0 then (false, found) else test_loop work baseline test_points next

  unfoldable pub try_all : List ℕ → Calibration → ℕ × Calibration
  unfolding test_time
  try_all [] s = (short, s)
  try_all (enough ∷ es) s =
      let (good, next) = test_time enough s in
      let rest = try_all es next in if good then (enough, next) else rest

  -- `from_env` is what `atoi` makes of the variable ENOUGH, if it is set.
  unfoldable pub compute_enough : (from_env : Option ℕ) → Calibration → ℕ × Calibration
  unfolding try_all
  compute_enough none s = try_all possibilities s
  compute_enough (some enough) s = (enough, s)

  -- the times of the runs, less the overhead of the clock
  abbrev pub insert_longer : (t_overhead : ℕ) → List Value → Results → Results
  insert_longer t [] r = r
  insert_longer t (v ∷ vs) r =
      insert_longer t vs (if ltb t v.u then insertsort f (v.u - t) v.n r else r)

  -- `runs` are the times and the counts of the runs of `BENCH_INNER`, `from_env` the variable
  -- TIMING_O. All that the function changes besides its result it puts back.
  unfoldable pub t_overhead : (from_env : Option D) (long_enough : ℕ) (runs : List Value) → ℕ
  unfolding get_enough
  t_overhead (some o) long_enough runs = f.to_u64 o
  t_overhead none long_enough runs =
      let v = save_minimum (insert_all f runs empty_results) in
      if leb (get_enough long_enough 0) 50000 then v.u / v.n else 0

  -- `ones` and `twos` are the runs of `one_op` and of `two_op`.
  unfoldable pub l_overhead : (from_env : Option D) (t_overhead : ℕ) (ones twos : List Value) → D
  l_overhead (some o) t ones twos = o
  l_overhead none t ones twos =
      let one = save_minimum (insert_longer t ones empty_results) in
      let two = save_minimum (insert_longer t twos empty_results) in
      let overhead =
        sub (div (mul (of_ℕ 2) (of_ℕ one.u)) (of_ℕ one.n)) (div (of_ℕ two.u) (of_ℕ two.n)) in
      if lt overhead (of_ℕ 0) then of_ℕ 0 else overhead
