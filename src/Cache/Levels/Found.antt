-- ===== src/Cache/Levels/Found.antt =====
-- Which index `find_cache` of lmbench3/src/cache.c gives.
use repo_support_tools.Base.{
  ℕ, zero, suc, ◌+◌, ◌-◌, ◌≤◌, ◌<◌, ◌≡◌, Bool, true, false, ◌&&◌, List, Option, none, some, refl,
  arith, Bool-cases, inl, inr,
}
use repo_support_tools.Doubles.{Doubles}
use mathlib.Core.Option.{some-injective}
use repo_support_tools.Cache.Levels.{
  CacheResults, find_cache, find_from, previous, result_at, threshold, minus_one, is_skipped, rises,
  falls,
}

and_true : (a b : Bool) → (a && b) ≡ true → (a ≡ true) × (b ≡ true)
and_true true b h = (refl, h)
and_true false b h = absurd (cc)

module _ (f : Doubles) where
  open f use {D, lt}

  -- a measured result at `j`, from `start` on and before `i`
  abbrev IsMeasured : List (CacheResults f) → (start i j : ℕ) → Type 0
  IsMeasured p start i j = (start ≤ j) × (j < i) × (is_skipped f (result_at f p j) ≡ false)

  -- what the loop keeps: the best ratio so far and where it is
  abbrev IsBest : List (CacheResults f) → (start i : ℕ) → Option ℕ → D → Type 0
  IsBest p start i none max = max ≡ minus_one f
  IsBest p start i (some j) max = (max ≡ (result_at f p j).ratio) × IsMeasured p start i j

  -- an index where the ratio is above the threshold, with a smaller one after it
  abbrev pub IsPeak : List (CacheResults f) → (start n j : ℕ) → Type 0
  IsPeak p start n j =
      IsMeasured p start n j
      × (lt (threshold f) (result_at f p j).ratio ≡ true)
      × ((k : ℕ) × IsMeasured p (suc j) n k
          × (lt (result_at f p k).ratio (result_at f p j).ratio ≡ true))

  later :
      (p : List (CacheResults f)) (start i : ℕ) (j : Option ℕ) (max : D)
      → IsBest p start i j max
      → IsBest p start (suc i) j max
  later p start i none max h = h
  later p start i (some j) max h = (h.0, (h.1.0, omega (arith, h.1.1), h.1.2))

  peak :
      (p : List (CacheResults f)) (start n i j : ℕ) (found : Option ℕ) (max : D)
      → lt (threshold f) (minus_one f) ≡ false
      → start ≤ i
      → i < n
      → is_skipped f (result_at f p i) ≡ false
      → falls f (result_at f p i) max ≡ true
      → IsBest p start i found max
      → found ≡ some j
      → IsPeak p start n j
  peak p start n i j none max low from below measured fall best e = absurd (cc)
  peak p start n i j (some m) max low from below measured fall best e =
      let both = and_true (lt (result_at f p i).ratio max) (lt (threshold f) max) fall in
      let e' = some-injective _ _ e in
      let here : IsPeak p start n m = (
        (best.1.0, omega (arith, best.1.1), best.1.2),
        rw best.0 at both.1,
        (i, (omega (arith, best.1.1), below, measured), rw best.0 at both.0),
      ) in
      rw (← e') here

  find_from-IsPeak :
      (p : List (CacheResults f)) (start n k i j prev : ℕ) (found : Option ℕ) (max : D)
      → lt (threshold f) (minus_one f) ≡ false
      → start ≤ i
      → i + k ≡ n
      → IsBest p start i found max
      → find_from f p k i found prev max ≡ some j
      → IsPeak p start n j
  unfolding find_from
  find_from-IsPeak p start n zero i j prev found max low from e best h = absurd (cc)
  find_from-IsPeak p start n (suc k) i j prev found max low from e best h =
      elim (Bool-cases (is_skipped f (result_at f p i))) [
        | inl skip ↦
            find_from-IsPeak p start n k (suc i) j prev found max low (omega arith) (omega arith)
              (later p start i found max best) (rw (skip, find_from) at h)
        | inr measured ↦ elim (Bool-cases (rises f (result_at f p prev) (result_at f p i) max)) [
          | inl up ↦
              find_from-IsPeak p start n k (suc i) j i (some i) ((result_at f p i).ratio) low
                (omega arith) (omega arith) (refl, (from, omega arith, measured))
                (rw (measured, up, find_from) at h)
          | inr steady ↦ elim (Bool-cases (falls f (result_at f p i) max)) [
            | inl down ↦
                peak p start n i j found max low from (omega arith) measured down best
                  (rw (measured, steady, down, find_from) at h)
            | inr level ↦
                find_from-IsPeak p start n k (suc i) j i found max low (omega arith) (omega arith)
                  (later p start i found max best) (rw (measured, steady, level, find_from) at h)
          ]
        ]
      ]

  -- An index that `find_cache` gives is one of a measured size from `start` on, with a ratio above the
  -- threshold, and a later measured size has a smaller ratio, if -1 is not above the threshold.
  pub find_cache-IsPeak :
      (p : List (CacheResults f)) (start n j : ℕ)
      → lt (threshold f) (minus_one f) ≡ false
      → start ≤ n
      → find_cache f start n p ≡ some j
      → IsPeak p start n j
  unfolding find_cache
  find_cache-IsPeak p start n j low h e =
      find_from-IsPeak p start n (n - start) start j (previous f p (start - 1)) none (minus_one f)
        low (omega arith) (omega arith) refl e
