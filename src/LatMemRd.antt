-- ===== src/LatMemRd.antt =====
-- lat_mem_rd.c of lmbench3/src, which measures the latency of loads for growing ranges: `step`, the
-- ranges of `main`, `benchmark_loads` and `loads`. The chain is that of Memory/Stride or
-- Memory/Thrash.
pub mod Grows
use repo_support_tools.Base.{
  ℕ, zero, suc, ◌+◌, ◌*◌, ◌/◌, ◌%◌, ◌^◌, Option, none, some, List, [], ◌∷◌, if◌then◌else◌, ltb, leb,
}
use repo_support_tools.Doubles.{Doubles}
use repo_support_tools.Memory.Chain.{Cells, deref}

-- `STRIDE` and `LOWER`
abbrev pub stride_words : ℕ
stride_words = 64

abbrev pub lowest : ℕ
lowest = 512

-- `for (s = 32 * 1024; s <= k; s *= 2) ;`
unfoldable pub power_above : (k fuel s : ℕ) → ℕ
power_above k zero s = s
power_above k (suc fuel) s =
    let rest = power_above k fuel (s * 2 % 2 ^ 64) in if leb s k then rest else s

unfoldable pub step : ℕ → ℕ
step k =
    if ltb k 1024
    then k * 2
    else if ltb k 4096
    then k + 1024
    else (k + power_above k 64 32768 / 16) % 2 ^ 64

-- `for (range = LOWER; range <= len; range = step(range))`: the ranges
unfoldable pub ranges : (len fuel range : ℕ) → Option (List ℕ)
ranges len zero range = none
ranges len (suc fuel) range =
    let rest = ranges len fuel (step range) in if leb range len then before range rest else some []
  where
    before : ℕ → Option (List ℕ) → Option (List ℕ)
    before x none = none
    before x (some xs) = some (x ∷ xs)

-- `count` in `benchmark_loads`, and in `loads`
unfoldable pub rounds : (len line : ℕ) → ℕ
rounds len line = len / (line * 100) + 1

abbrev pub load_count : (len line : ℕ) → ℕ
load_count len line = 100 * rounds len line

-- the `for` over `i`: a hundred loads in each round
unfoldable pub load_rounds : (count : ℕ) → Cells → ℕ → ℕ
load_rounds zero cells p = p
load_rounds (suc count) cells p = load_rounds count cells (deref cells 100 p)

-- the pointer that `benchmark_loads` leaves
unfoldable pub benchmark_loads : (iterations len line : ℕ) → Cells → ℕ → ℕ
benchmark_loads zero len line cells p = p
benchmark_loads (suc iterations) len line cells p =
    benchmark_loads iterations len line cells (load_rounds (rounds len line) cells p)

module _ (f : Doubles) where
  open f use {D, of_ℕ, div, mul, lt}

  -- What `loads` prints, none where the range is smaller than the stride: the range in MB, and the
  -- nanoseconds for a load, from the time and the count that the harness reports.
  unfoldable pub loads : (range stride time n : ℕ) → Option (D × D)
  loads range stride time n =
      if ltb range stride
      then none
      else some (
        div (of_ℕ range) (mul (of_ℕ 1024) (of_ℕ 1024)),
        div (mul (of_ℕ 1000) (of_ℕ time)) (of_ℕ (load_count range stride * n % 2 ^ 64)),
      )
