-- ===== src/Cache/Collect.antt =====
-- `collect_sample`, `search` and `collect_data` of lmbench3/src/cache.c: which sizes are measured, and
-- what is stored for them.
pub mod Searched
pub mod Discarded
use repo_support_tools.Base.{
  ℕ, zero, suc, ◌+◌, ◌-◌, ◌*◌, ◌/◌, ◌≤◌, Bool, true, false, ◌&&◌, ◌||◌, not, List, [], ◌∷◌, map,
  Option, none, some, length, set, leb, ltb, ◌==◌, if◌then◌else◌,
}
use repo_support_tools.Doubles.{Doubles}
use repo_support_tools.Cache.Sizes.{fill_samples}
use repo_support_tools.Cache.Levels.{CacheResults, result_at, unmeasured}
use repo_support_tools.Cache.Measure.{Machine, State, measure, page_count}
use repo_support_tools.Cache.Chunks.{scaled, with_pages}
use repo_support_tools.Cache.Tests.{test_chunk}

module _ (f : Doubles) (machine : Machine) where
  open f use {D, of_ℕ, sub, mul, div, lt}

  -- `for (i = 0, modified = 1; i < 8 && modified; ++i)` with `rounds` left
  unfoldable pub improve : (npages len rounds : ℕ) (baseline : D) → State → Option (D × State)
  unfolding test_chunk
  improve npages len zero baseline s = some (baseline, s)
  improve npages len (suc rounds) baseline s =
      elim (test_chunk f machine npages len npages 0 npages baseline (of_ℕ 0) s) [
        | none ↦ none
        | some (true, baseline', s') ↦ improve npages len rounds baseline' s'
        | some (false, baseline', s') ↦ some (baseline', s')
      ]

  -- `if (npages > 1)` around it
  unfoldable pub improve_sample : (len : ℕ) (baseline : D) → State → Option (D × State)
  unfolding improve
  improve_sample len baseline s =
      let npages = page_count machine len in
      if ltb 1 npages then improve npages len 8 baseline s else some (baseline, s)

  -- `none` for a division by 0
  unfoldable pub collect_sample : CacheResults f → State → Option (CacheResults f × State)
  unfolding improve_sample measure
  collect_sample r s =
      let (m, s') = measure machine f r.len s in
      elim (improve_sample r.len m.0 s') [
        | none ↦ none
        | some (baseline, after) ↦ some (record r { variation = m.1; latency = baseline }, after)
      ]

  -- the first `if` of `search`, on the results of its ends
  unfoldable pub relate : (left right : ℕ) (l r : CacheResults f) → CacheResults f
  relate left right l r =
      let ratio = div r.latency l.latency in
      let slope = div (sub ratio (of_ℕ 1)) (of_ℕ (right - left)) in
      if not (lt (of_ℕ 0) l.latency)
      then l
      else if lt ratio (div (of_ℕ 98) (of_ℕ 100))
      then record l { latency = r.latency; ratio = of_ℕ 1; slope = of_ℕ 0 }
      else record l { ratio = ratio; slope = slope }

  -- `p[left].ratio > 1.35 || p[left].ratio < 0.97`
  abbrev pub is_edge : CacheResults f → Bool
  is_edge l = lt (div (of_ℕ 135) (of_ℕ 100)) l.ratio || lt l.ratio (div (of_ℕ 97) (of_ℕ 100))

  -- `left <= right`. On fuel: `none` if it is used up, and for a division by 0. `sample` is
  -- `collect_sample`.
  unfoldable pub search :
      (sample : CacheResults f → State → Option (CacheResults f × State)) (fuel left right : ℕ)
      → List (CacheResults f) × State
      → Option (List (CacheResults f) × State)
  unfolding relate
  search sample zero left right x = none
  search sample (suc fuel) left right (p, s) =
      let middle = left + (right - left) / 2 in
      let l = relate left right (result_at f p left) (result_at f p right) in
      let p' = set p left l in
      if (middle == left) || (middle == right)
      then some (p', s)
      else if not (is_edge l)
      then some (p', s)
      else elim (sample (result_at f p' middle) s) [
        | none ↦ none
        | some (r, s') ↦ elim (search sample fuel middle right (set p' middle r, s')) [
          | none ↦ none
          | some x ↦ search sample fuel left middle x
        ]
      ]

  -- `p[i].latency = measure(p[i].len, repetitions, &p[i].variation, &state);`
  unfoldable pub measure_at : ℕ → List (CacheResults f) × State → List (CacheResults f) × State
  unfolding measure
  measure_at i (p, s) =
      let r = result_at f p i in
      let (m, s') = measure machine f r.len s in
      (set p i (record r { latency = m.0; variation = m.1 }), s')

  -- `while (p[samples-1].latency <= 0.0)`, which counts down behind the measurement: `none` where it
  -- counts below 0 and reads before the array
  unfoldable pub discard :
      (samples : ℕ) → List (CacheResults f) × State → Option (ℕ × (List (CacheResults f) × State))
  unfolding measure_at
  discard zero x = none
  discard (suc samples) x =
      let rest = discard samples (measure_at samples x) in
      if lt (of_ℕ 0) (result_at f x.0 samples).latency then some (suc samples, x) else rest

  -- `while (p[samples-1].len > maxlen) samples--;`
  unfoldable pub shrink : List (CacheResults f) → (maxlen samples : ℕ) → ℕ
  shrink p maxlen zero = zero
  shrink p maxlen (suc samples) =
      let rest = shrink p maxlen samples in
      if ltb maxlen (result_at f p samples).len then rest else suc samples

  -- `while (state.addr == NULL)` on fuel, where `block` tells whether there is memory for a size: the
  -- maximum and the number of samples, `none` if there is none
  unfoldable pub find_memory :
      (block : ℕ → Bool) → List (CacheResults f) → (fuel maxlen samples : ℕ) → Option (ℕ × ℕ)
  unfolding shrink
  find_memory block p zero maxlen samples = none
  find_memory block p (suc fuel) maxlen samples =
      let half = maxlen / 2 in
      let rest = find_memory block p fuel half (shrink p half samples) in
      if block maxlen then some (maxlen, samples) else rest

  -- `state.pages[i] = i * state.pagesize`, from `i` on
  unfoldable pub in_order : (k i : ℕ) → List ℕ
  in_order zero i = []
  in_order (suc k) i = (i * machine.pagesize) ∷ in_order k (suc i)

  -- The data of the sizes from `start` on, as they are before the measurement.
  unfoldable pub initial_data : (maxlen start : ℕ) → List (CacheResults f)
  unfolding fill_samples
  initial_data maxlen start =
      map (λ len. unmeasured f len) (fill_samples maxlen maxlen (start / 4) start)

  -- `for (i = 0; i < samples; ++i) p[i].maxlen = maxlen;`
  unfoldable pub set_maxlen : (maxlen samples : ℕ) → List (CacheResults f) → List (CacheResults f)
  set_maxlen maxlen zero p = p
  set_maxlen maxlen (suc samples) [] = []
  set_maxlen maxlen (suc samples) (r ∷ p) =
      record r { maxlen = maxlen } ∷ set_maxlen maxlen samples p

  -- From the memory on: the number of samples that are left, and the data. `machine` has the maximum
  -- that is found.
  unfoldable pub collect_measured :
      (samples : ℕ) → List (CacheResults f) → State → Option (ℕ × List (CacheResults f))
  unfolding set_maxlen in_order measure_at discard search collect_sample
  collect_measured samples p s =
      let pages = in_order (page_count machine machine.maxlen) 0 in
      let first = measure_at 0 (set_maxlen machine.maxlen samples p, with_pages s pages) in
      elim (discard samples (measure_at (samples - 1) first)) [
        | none ↦ none
        | some (samples', x) ↦ elim (search collect_sample (suc samples') 0 (samples' - 1) x) [
          | none ↦ none
          | some (p', _) ↦ some (samples', p')
        ]
      ]
