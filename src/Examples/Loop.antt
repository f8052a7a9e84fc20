-- ===== src/Examples/Loop.antt =====
-- `BENCH_INNER` of lmbench3/src/bench.h at concrete inputs.
use repo_support_tools.Base.{ℕ, ◌*◌, zero, suc, ◌≡◌, some, refl, leb, if◌then◌else◌, arith}
use repo_support_tools.Timing.Results.{Value}
use repo_support_tools.Timing.Loop.{bench_inner, adjust}
use repo_support_tools.Timing.Loop.Report.{IsExplained, bench_inner-total}
use repo_support_tools.Examples.Fractions.{fractions}

-- a body of 3 milliseconds in the first run, which needs a warm cache, and of 200 microseconds later
abbrev cold : ℕ → ℕ → ℕ
cold zero n = n * 3000
cold (suc k) n = n * 200

-- The fourth round takes 11 ms with any count that it may have.
abbrev patient : ℕ → ℕ → ℕ
patient k n = if leb 3 k then 11000 else n * 50

bench_inner-total_example :
    (v : Value) × (bench_inner fractions patient 5000 9 0 1 (0, 1) ≡ some v)
    × IsExplained fractions patient 5000 v
bench_inner-total_example =
    bench_inner-total fractions patient 5000 9 1 3 refl (λ m. refl) (omega arith)

-- 10 iterations take 30 milliseconds, and the count that is reported is 2.
cold_start : bench_inner fractions cold 5000 9 0 10 (0, 1) ≡ some (record { u = 30000; n = 2 })
unfolding bench_inner adjust
cold_start = refl
