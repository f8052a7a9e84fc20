-- ===== src/TlbSize.antt =====
-- lmbench3/src/tlb.c: the search for the number of pages that the TLB maps. What the runs of `BENCH1`
-- give is an argument, by the number of calls of `compute_times` so far and the pages.
pub mod Located
use repo_support_tools.Base.{
  ℕ, zero, suc, ◌+◌, ◌-◌, ◌*◌, ◌/◌, Bool, true, false, List, Option, none, some, leb, ltb,
  if◌then◌else◌,
}
use repo_support_tools.Doubles.{Doubles}
use repo_support_tools.Timing.Results.{Results, Value, insert_all, insertinit, save_median}
use repo_support_tools.Cache.Measure.{nanoseconds}

module _ (f : Doubles) (room : Results) where
  open f use {D, of_ℕ, div, lt}

  -- `runs` are those on the chain through the pages and on the chain of as many lines: none where the
  -- memory is not initialized.
  unfoldable pub compute_times : (runs : List Value × List Value) → D × D
  compute_times runs =
      let tlb_results = insert_all f runs.0 (insertinit room) in
      let cache_results = insert_all f runs.1 (insertinit room) in
      (nano (save_median tlb_results), nano (save_median cache_results))
    where
      nano : Value → D
      nano v = div (f.mul (of_ℕ 1000) (of_ℕ v.u)) (f.mul (of_ℕ 100) (of_ℕ v.n))

  module _ (runs : (calls pages : ℕ) → List Value × List Value) where
    -- `*tlb_time / *cache_time > THRESHOLD`
    unfoldable pub is_slow : (calls pages : ℕ) → Bool
    unfolding compute_times
    is_slow calls pages =
        let times = compute_times (runs calls pages) in
        lt (div (of_ℕ 115) (of_ℕ 100)) (div times.0 times.1)

    -- `for (i = start; i <= maxpages; i<<=1)` on fuel: the size where it breaks and the number of calls
    -- behind it
    unfoldable pub find_upper : (maxpages fuel i calls : ℕ) → Option (ℕ × ℕ)
    unfolding is_slow
    find_upper maxpages zero i calls = none
    find_upper maxpages (suc fuel) i calls =
        let rest = find_upper maxpages fuel (i * 2) (suc calls) in
        if ltb maxpages i then none else if is_slow calls i then some (i, suc calls) else rest

    -- `while (lower + 1 < upper)` on fuel; `i` is halfway between
    unfoldable pub bisect : (fuel lower upper calls : ℕ) → ℕ
    unfolding is_slow
    bisect zero lower upper calls = lower
    bisect (suc fuel) lower upper calls =
        let i = lower + (upper - lower) / 2 in
        let slow = is_slow calls i in
        let rest =
          bisect fuel (if slow then lower else i) (if slow then i else upper) (suc calls) in
        if ltb (lower + 1) upper then rest else lower

    unfoldable pub find_tlb : (start maxpages : ℕ) → ℕ
    unfolding find_upper bisect
    find_tlb start maxpages = elim (find_upper maxpages (suc maxpages) start 0) [
      | none ↦ 0
      | some (upper, calls) ↦ bisect (upper - upper / 2) (upper / 2) upper calls
    ]
