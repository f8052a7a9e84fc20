-- ===== src/Timing/Loop.antt =====
-- The measuring macros of lmbench3/src/bench.h: `BENCH_INNER`, `BENCH1` and `BENCHO`. A loop body is
-- a function that gives the microseconds of a run from its number and its iterations.
pub mod Report
use repo_support_tools.Base.{
  ℕ, zero, suc, ◌+◌, ◌-◌, ◌*◌, ◌%◌, ◌^◌, Bool, true, false, ◌&&◌, ◌||◌, Option, none, some, List,
  [], ◌∷◌, not, if◌then◌else◌, ltb, leb, get_or,
}
use repo_support_tools.Doubles.{Doubles}
use repo_support_tools.Timing.Results.{Value, Results, insertsort, blank}

module _ (f : Doubles) where
  open f use {D, of_ℕ, add, sub, mul, div, lt}

  abbrev ratio : ℕ → ℕ → D
  ratio a b = div (of_ℕ a) (of_ℕ b)

  -- `__result < 0.95 * __enough`
  abbrev pub too_short : ℕ → D → Bool
  too_short enough result = lt result (mul (ratio 95 100) (of_ℕ enough))

  -- `__result < 0.99 * __enough || __result > 1.2 * __enough`
  abbrev pub out_of_range : ℕ → D → Bool
  out_of_range enough result =
      lt result (mul (ratio 99 100) (of_ℕ enough)) || lt (mul (ratio 12 10) (of_ℕ enough)) result

  -- `__result > 150.`
  abbrev pub long_run : D → Bool
  long_run result = lt (of_ℕ 150) result

  -- where the loop breaks with a result of 0
  abbrev pub gives_up : ℕ → ℕ → D → Bool
  gives_up enough iterations result =
      out_of_range enough result && not (long_run result) && ltb (2 ^ 27) iterations

  -- `__iterations` after a round
  unfoldable pub adjust : ℕ → ℕ → D → ℕ
  adjust enough iterations result =
      if out_of_range enough result
      then (if long_run result
          then f.to_u64
              (add (mul (div (of_ℕ iterations) result) (mul (ratio 11 10) (of_ℕ enough))) (of_ℕ 1))
          else iterations * 8 % 2 ^ 64)
      else iterations

  -- The `while` from round `k` on, and the values of `save_n` and `settime` after it: none where the
  -- fuel of rounds runs out. `__iterations` is static: its new value is the one that is saved.
  unfoldable pub bench_inner :
      (elapsed : ℕ → ℕ → ℕ) (enough fuel k iterations : ℕ) → D → Option Value
  bench_inner elapsed enough zero k iterations result =
      if too_short enough result
      then none
      else some (record { u = f.to_u64 result; n = iterations })
  bench_inner elapsed enough (suc fuel) k iterations result =
      let next = of_ℕ (elapsed k iterations) in
      let rest = bench_inner elapsed enough fuel (k + 1) (adjust enough iterations next) next in
      if too_short enough result
      then (if gives_up enough iterations next
          then some (record { u = f.to_u64 (of_ℕ 0); n = iterations })
          else rest)
      else some (record { u = f.to_u64 result; n = iterations })

  -- `BENCH1` after its `BENCH_INNER`: the overheads are taken off.
  unfoldable pub bench1 : (t_overhead : ℕ) → D → Value → Value
  bench1 t_overhead l_overhead v =
      let usecs = sub (of_ℕ v.u) (add (of_ℕ t_overhead) (mul (of_ℕ v.n) l_overhead)) in
      record { u = if lt usecs (of_ℕ 0) then 0 else f.to_u64 usecs; n = v.n }

  -- the measurements of `BENCHO`: one of the overhead and one of the loop in each round
  unfoldable pub measure_both : List (Value × Value) → Results × Results → Results × Results
  measure_both [] rs = rs
  measure_both (m ∷ ms) rs = measure_both ms (
    if ltb 0 m.0.u then insertsort f m.0.u m.0.n rs.0 else rs.0,
    if ltb 0 m.1.u then insertsort f m.1.u m.1.n rs.1 else rs.1,
  )

  -- the last loop of `BENCHO` on one entry, with the entry of the overhead in the same place
  unfoldable pub take_off : Value → Value → Value
  take_off overhead v =
      let oh = div (of_ℕ overhead.u) (of_ℕ overhead.n) in
      let cost = f.to_u64 (mul (of_ℕ v.n) oh) in
      record { u = if ltb cost v.u then v.u - cost else 0; n = v.n }
