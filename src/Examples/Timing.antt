-- ===== src/Examples/Timing.antt =====
-- The clock and the result set at concrete inputs.
use repo_support_tools.Base.{ℕ, ◌*◌, inl, ◌≡◌, refl, List, [], ◌∷◌, ◌++◌, false, arith, replicate}
use mathlib.Core.List.{Perm}
use repo_support_tools.Base.Int.{pos, ◌+ℤ◌, ◌-ℤ◌}
use repo_support_tools.Timing.Calibration.{
  empty_results, Calibration, duration, time_loop, time_N, find_loop, find_N,
}
use repo_support_tools.Timing.Calibration.Enough.{Finds, find_N-Finds}
use repo_support_tools.Timing.Clock.{
  Timeval, Clock, zero_tv, tvdelta, tvsub, start, stop, settime, save_n, gettime,
}
use repo_support_tools.Timing.Results.{
  Value, Results, blank, slower, insertsort, collect, save_minimum, save_median, shift, scan,
}
use repo_support_tools.Timing.Results.Place.{entries}
use repo_support_tools.Timing.Results.Order.{IsValid, insertsort-IsValid, measured, collect-perm}
use repo_support_tools.Timing.Results.Summary.{save_minimum-minimal}
use repo_support_tools.Examples.Fractions.{fractions, fractions-IsOrdered}

abbrev clock : Clock
clock = record { start_tv = zero_tv; stop_tv = zero_tv; iterations = 7 }

abbrev empty : Results
empty = record { count = 0; v = replicate 5 blank }

empty-IsValid : IsValid fractions empty
empty-IsValid = record { room = omega arith; positive = tt; descending = tt }

abbrev value : ℕ → ℕ → Value
value u n = record { u = u; n = n }

abbrev runs : List Value
runs = value 100 10 ∷ value 0 5 ∷ value 30 1 ∷ value 90 10 ∷ []

-- 30, 10 and 9 microseconds for an iteration
abbrev full : Results
full = record { count = 3; v = value 30 1 ∷ value 100 10 ∷ value 90 10 ∷ blank ∷ blank ∷ [] }

collect-runs : collect fractions runs empty ≡ full
unfolding collect insertsort scan shift slower
collect-runs = refl

full-IsValid : IsValid fractions full
unfolding slower
full-IsValid = record {
  room = omega arith;
  positive = omega arith;
  descending = ((refl, (refl, tt)), ((refl, tt), (tt, tt)));
}

insertsort-IsValid_example : IsValid fractions (insertsort fractions 95 10 full)
insertsort-IsValid_example =
    insertsort-IsValid fractions fractions-IsOrdered 95 10 full full-IsValid (omega arith)

collect-perm_example :
    Perm (entries (collect fractions runs empty)) (measured fractions runs ++ entries empty)
collect-perm_example = collect-perm fractions runs empty (omega arith)

save_minimum-minimal_example : slower fractions (save_minimum full) (value 100 10) ≡ false
save_minimum-minimal_example =
    save_minimum-minimal fractions fractions-IsOrdered full 1 full-IsValid (omega arith)

abbrev pair : Results
pair = record { count = 2; v = value 30 3 ∷ value 15 2 ∷ [] }

-- a clock on which each measurement takes 5 milliseconds
abbrev steady : ℕ → Timeval
steady k = record { sec = pos 0; usec = pos (k * 5000) }

abbrev uncalibrated : Calibration
uncalibrated = record {
  clock = record { start_tv = zero_tv; stop_tv = zero_tv; iterations = 1 };
  reads = 0;
  work = 10000;
  usecs = 0;
}

find_N-Finds_example :
    Finds fractions empty_results steady 5000
      (find_N fractions empty_results steady 5000 uncalibrated)
find_N-Finds_example = find_N-Finds fractions empty_results steady 5000 uncalibrated (inl refl)

find_N-steady : (find_N fractions empty_results steady 5000 uncalibrated).0 ≡ 10000
unfolding save_median find_N find_loop time_N time_loop duration start stop tvdelta tvsub settime
    gettime save_n save_minimum insertsort scan shift slower ◌-ℤ◌ ◌+ℤ◌
find_N-steady = refl
