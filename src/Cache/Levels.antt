-- ===== src/Cache/Levels.antt =====
-- `struct cache_results`, `find_cache` and the loop of `main` over the levels, of lmbench3/src/cache.c.
-- An array of results is the list of them. No latency and no ratio is NaN: each is a quotient with a
-- positive divisor.
pub mod Found
pub mod Bounded
use repo_support_tools.Base.{
  ℕ, zero, suc, ◌+◌, ◌-◌, ◌/◌, ◌==◌, Bool, true, false, ◌&&◌, not, List, [], ◌∷◌, Option, none,
  some, get_or, leb, if◌then◌else◌,
}
use repo_support_tools.Base.Int.{ℤ, pos, negsuc}
use repo_support_tools.Doubles.{Doubles}
use repo_support_tools.Cache.Sizes.{is_odd_size}

module _ (f : Doubles) where
  open f use {D, of_ℕ, of_ℤ, div, lt, sub, mul}

  pub record CacheResults : Type 0 where
    pub len : ℕ
    pub maxlen : ℕ
    pub line : ℤ
    pub mline : ℤ
    pub latency : D
    pub variation : D
    pub ratio : D
    pub slope : D

  abbrev pub minus_one : D
  minus_one = of_ℤ (negsuc 0)

  abbrev pub threshold : D
  threshold = div (of_ℕ 3) (of_ℕ 2)

  -- The data of a size before it is measured. `malloc` leaves the variation as it is, and the maximum
  -- is stored later.
  abbrev pub unmeasured : ℕ → CacheResults
  unmeasured len = record {
    len = len;
    maxlen = 0;
    line = negsuc 0;
    mline = negsuc 0;
    latency = minus_one;
    variation = minus_one;
    ratio = minus_one;
    slope = minus_one;
  }

  -- `p[i]`
  abbrev pub result_at : List CacheResults → ℕ → CacheResults
  result_at p i = get_or p i (unmeasured 0)

  -- `for (; prev > 0; prev--) if (p[prev].ratio > 0.0) break;`
  unfoldable pub previous : List CacheResults → ℕ → ℕ
  previous p zero = zero
  previous p (suc i) =
      let rest = previous p i in if lt (of_ℕ 0) ((result_at p (suc i)).ratio) then suc i else rest

  abbrev pub is_skipped : CacheResults → Bool
  is_skipped r = lt r.latency (of_ℕ 0)

  abbrev pub rises : (last r : CacheResults) → D → Bool
  rises last r max = not (lt r.ratio last.ratio) && lt max r.ratio

  abbrev pub falls : CacheResults → D → Bool
  falls r max = lt r.ratio max && lt threshold max

  -- The second loop from index `i` on, with `k` results left. `j` is `none` for -1.
  unfoldable pub find_from :
      List CacheResults → (k i : ℕ) (j : Option ℕ) (prev : ℕ) (max : D) → Option ℕ
  find_from p zero i j prev max = none
  find_from p (suc k) i j prev max =
      let r = result_at p i in
      elim (is_skipped r) [
        | true ↦ find_from p k (suc i) j prev max
        | false ↦ elim (rises (result_at p prev) r max) [
          | true ↦ find_from p k (suc i) (some i) i r.ratio
          | false ↦ elim (falls r max) [ true ↦ j | false ↦ find_from p k (suc i) j i max ]
        ]
      ]

  unfoldable pub find_cache : (start n : ℕ) → List CacheResults → Option ℕ
  unfolding find_from previous
  find_cache start n p = find_from p (n - start) start none (previous p (start - 1)) minus_one

  -- `r[i].latency / r[n-1].latency > 0.5`: it is near that of main memory
  abbrev pub is_memory : List CacheResults → (n i : ℕ) → Bool
  is_memory p n i =
      lt (div (of_ℕ 1) (of_ℕ 2)) (div (result_at p i).latency (result_at p (n - 1)).latency)

  -- The loop over the levels, from `start` on, on fuel: what it writes to `levels`.
  unfoldable pub levels_from : List CacheResults → (n fuel start : ℕ) → List ℕ
  unfolding find_cache
  levels_from p n zero start = []
  levels_from p n (suc fuel) start = elim (find_cache start n p) [
    | none ↦ []
    | some i ↦ elim (is_memory p n i) [
      | true ↦ []
      | false ↦ elim (is_odd_size (result_at p i).len) [
        | false ↦ i ∷ levels_from p n fuel (suc i)
        | true ↦ elim (leb n (suc i)) [
          | true ↦ []
          | false ↦ suc i ∷ levels_from p n fuel (suc (suc i))
        ]
      ]
    ]
  ]

  -- `ABS`
  abbrev pub absolute : D → D
  absolute a = if lt a (of_ℕ 0) then sub (of_ℕ 0) a else a

  -- `for (j = min = prev + 1; j < levels[i]; ++j)` from `j` on, with `k` results left
  unfoldable pub min_slope : List CacheResults → (k j min : ℕ) → ℕ
  min_slope p zero j min = min
  min_slope p (suc k) j min =
      let r = result_at p j in
      let least = result_at p min in
      let better =
        if not (lt (of_ℕ 0) r.latency)
        then min
        else if not (lt (of_ℕ 0) least.latency)
        then j
        else if lt (absolute r.slope) (absolute least.slope)
        then j
        else min in
      min_slope p k (suc j) better

  -- `for (i = n - 1; i >= 0; i--)`: the first size whose latency is that of main memory, where `i` is
  -- one more than in the source
  unfoldable pub first_memory : List CacheResults → (n i j : ℕ) → ℕ
  first_memory p n zero j = j
  first_memory p n (suc i) j =
      let r = result_at p i in
      let bound = mul (div (of_ℕ 99) (of_ℕ 100)) (result_at p (n - 1)).latency in
      let j' = if lt r.latency (of_ℕ 0) then j else if lt bound r.latency then i else j in
      first_memory p n i j'
