-- ===== src/Cache/Levels/Bounded.antt =====
-- The levels that `main` of lmbench3/src/cache.c finds.
use repo_support_tools.Base.{
  ℕ, zero, suc, ◌+◌, ◌≤◌, ◌<◌, ◌≡◌, false, List, [], ◌∷◌, length, refl, ap, arith, Bool-cases,
  Option-cases, inl, inr, leb,
}
use repo_support_tools.Doubles.{Doubles}
use repo_support_tools.Cache.Sizes.{is_odd_size}
use repo_support_tools.Cache.Levels.{
  CacheResults, find_cache, levels_from, is_memory, result_at, threshold, minus_one,
}
use repo_support_tools.Cache.Levels.Found.{find_cache-IsPeak}

-- strictly increasing, from `start` on and below `n`
abbrev pub IsIncreasing : (start n : ℕ) → List ℕ → Type 0
IsIncreasing start n [] = Unit
IsIncreasing start n (i ∷ l) = (start ≤ i) × (i < n) × IsIncreasing (suc i) n l

length-IsIncreasing :
    (start n : ℕ) (l : List ℕ) → start ≤ n → IsIncreasing start n l → start + length l ≤ n
length-IsIncreasing start n [] h inc = omega arith
length-IsIncreasing start n (i ∷ l) h inc =
    omega (arith, inc.0, length-IsIncreasing (suc i) n l inc.1 inc.2)

module _ (f : Doubles) where
  levels_from-IsIncreasing :
      (p : List (CacheResults f)) (n fuel start : ℕ)
      → f.lt (threshold f) (minus_one f) ≡ false
      → start ≤ n
      → IsIncreasing start n (levels_from f p n fuel start)
  unfolding levels_from
  levels_from-IsIncreasing p n zero start low h = tt
  levels_from-IsIncreasing p n (suc fuel) start low h =
      elim (Option-cases (find_cache f start n p)) [
        | inl e ↦ rw (e, levels_from) tt
        | inr (i, e) ↦
            let peak = find_cache-IsPeak f p start n i low h e in
            let below : suc i < n = omega (arith, peak.2.1.0, peak.2.1.1) in
            let inside : leb n (suc i) ≡ false = ground arith in
            elim (Bool-cases (is_memory f p n i)) [
              | inl m ↦ rw (e, m, levels_from) tt
              | inr m ↦ elim (Bool-cases (is_odd_size (result_at f p i).len)) [
                | inr even ↦
                    rw (e, m, even, levels_from)
                      (
                        peak.0.0,
                        peak.0.1,
                        levels_from-IsIncreasing p n fuel (suc i) low (omega arith),
                      )
                | inl odd ↦
                    rw (e, m, odd, inside, levels_from)
                      (
                        omega (arith, peak.0.0),
                        below,
                        levels_from-IsIncreasing p n fuel (suc (suc i)) low (omega arith),
                      )
              ]
            ]
      ]

  levels_from_enough :
      (p : List (CacheResults f)) (n fuel start : ℕ)
      → f.lt (threshold f) (minus_one f) ≡ false
      → start ≤ n
      → n ≤ start + fuel
      → levels_from f p n (suc fuel) start ≡ levels_from f p n fuel start
  unfolding levels_from
  levels_from_enough p n zero start low h enough = elim (Option-cases (find_cache f start n p)) [
    | inl e ↦ rw (e, levels_from) refl
    | inr (i, e) ↦
        let peak = find_cache-IsPeak f p start n i low h e in
        absurd (omega (arith, peak.0.0, peak.0.1))
  ]
  levels_from_enough p n (suc fuel) start low h enough =
      elim (Option-cases (find_cache f start n p)) [
        | inl e ↦ rw (e, levels_from) refl
        | inr (i, e) ↦
            let peak = find_cache-IsPeak f p start n i low h e in
            let from : start ≤ i = peak.0.0 in
            let below : suc i < n = omega (arith, peak.2.1.0, peak.2.1.1) in
            elim (Bool-cases (is_memory f p n i)) [
              | inl m ↦ rw (e, m, levels_from) refl
              | inr m ↦ elim (Bool-cases (is_odd_size (result_at f p i).len)) [
                | inr even ↦
                    rw (e, m, even, levels_from)
                      (ap (◌∷◌ i)
                        (levels_from_enough p n fuel (suc i) low (omega arith) (omega arith)))
                | inl odd ↦
                    let inside : leb n (suc i) ≡ false = ground arith in
                    rw (e, m, odd, inside, levels_from)
                      (ap (◌∷◌ (suc i))
                        (levels_from_enough p n fuel (suc (suc i)) low (omega arith) (omega arith)))
              ]
            ]
      ]

  -- If -1 is not above the threshold, the loop of `main` writes at most as many levels as there are
  -- sizes, in strictly increasing order, all of them indices of sizes, and as many rounds as there are
  -- sizes are enough.
  pub levels_from-IsBounded :
      (p : List (CacheResults f)) (n : ℕ)
      → f.lt (threshold f) (minus_one f) ≡ false
      → IsIncreasing 0 n (levels_from f p n n 0)
        × (length (levels_from f p n n 0) ≤ n)
        × (levels_from f p n (suc n) 0 ≡ levels_from f p n n 0)
  levels_from-IsBounded p n low =
      let increasing = levels_from-IsIncreasing p n n 0 low (omega arith) in
      (
        increasing,
        omega (arith, length-IsIncreasing 0 n (levels_from f p n n 0) (omega arith) increasing),
        levels_from_enough p n n 0 low (omega arith) (omega arith),
      )
