-- ===== src/TlbSize/Located.antt =====
-- What `find_tlb` of lmbench3/src/tlb.c gives.
use native.Mathlib.Nat.{pow-suc, mul-le-mul_right}
use repo_support_tools.Base.{
  ℕ, zero, suc, ◌+◌, ◌-◌, ◌*◌, ◌/◌, ◌^◌, ◌≤◌, ◌<◌, ◌≡◌, ◌⊎◌, Bool, true, false, List, none, some,
  refl, sym, ap, arith, Bool-cases, Option-cases, inl, inr, ltb,
}
use mathlib.Core.Option.{some-injective}
use mathlib.Core.Path.{subst}
use repo_support_tools.Doubles.{Doubles}
use repo_support_tools.Timing.Results.{Results, Value}
use repo_support_tools.TlbSize.{is_slow, find_upper, bisect, find_tlb}

pow_ge : (k : ℕ) → 1 ≤ 2 ^ k
pow_ge zero = omega arith
pow_ge (suc k) = rw (pow-suc 2 k) (omega (arith, pow_ge k))

le_double : (i k : ℕ) → i ≤ i * 2 ^ k
le_double i k = let h = mul-le-mul_right {m = 1} {n = 2 ^ k} i (pow_ge k) in omega (arith, h)

module _ (f : Doubles) (room : Results) (runs : (calls pages : ℕ) → List Value × List Value) where
  -- a call of `compute_times` with this result
  abbrev pub IsMeasured : (pages : ℕ) → Bool → Type 0
  IsMeasured pages slow = (calls : ℕ) × (is_slow f room runs calls pages ≡ slow)

  -- Some measurement found `lower + 1` pages slow, and `lower` pages not slow, unless the search began
  -- there.
  abbrev pub IsEdge : (start lower : ℕ) → Type 0
  IsEdge start lower = IsMeasured (lower + 1) true × (IsMeasured lower false ⊎ (lower ≡ start / 2))

  bisect-IsEdge :
      (start fuel lower upper calls : ℕ)
      → lower < upper
      → upper ≤ lower + 1 + fuel
      → IsMeasured upper true
      → (IsMeasured lower false ⊎ (lower ≡ start / 2))
      → IsEdge start (bisect f room runs fuel lower upper calls)
  unfolding bisect
  bisect-IsEdge start zero lower upper calls lt enough slow fast =
      let e : upper ≡ lower + 1 = omega arith in (subst (λ n. IsMeasured n true) e slow, fast)
  bisect-IsEdge start (suc fuel) lower upper calls lt enough slow fast =
      let i = lower + (upper - lower) / 2 in
      elim (Bool-cases (ltb (lower + 1) upper)) [
        | inr near ↦
            let e : upper ≡ lower + 1 = ground arith in
            rw (near, bisect) (subst (λ n. IsMeasured n true) e slow, fast)
        | inl far ↦
            let far' : lower + 1 < upper = ground arith in
            elim (Bool-cases (is_slow f room runs calls i)) [
              | inl yes' ↦
                  rw (far, yes', bisect)
                    (bisect-IsEdge start fuel lower i (suc calls) (omega arith) (omega arith)
                      (calls, yes') fast)
              | inr no' ↦
                  rw (far, no', bisect)
                    (bisect-IsEdge start fuel i upper (suc calls) (omega arith) (omega arith) slow
                      (inl (calls, no')))
            ]
      ]

  -- what the first loop gives
  abbrev IsUpper : (start upper : ℕ) → Type 0
  IsUpper start upper =
      (0 < upper) × IsMeasured upper true × (IsMeasured (upper / 2) false ⊎ (upper / 2 ≡ start / 2))

  find_upper-IsUpper :
      (start maxpages fuel i calls upper calls' : ℕ)
      → 0 < i
      → (IsMeasured (i / 2) false ⊎ (i / 2 ≡ start / 2))
      → find_upper f room runs maxpages fuel i calls ≡ some (upper, calls')
      → IsUpper start upper
  unfolding find_upper
  find_upper-IsUpper start maxpages zero i calls upper calls' pos half e = absurd (cc)
  find_upper-IsUpper start maxpages (suc fuel) i calls upper calls' pos half e =
      elim (Bool-cases (ltb maxpages i)) [
        | inl large ↦ absurd (let e' = rw (large, find_upper) at e in cc)
        | inr small ↦ elim (Bool-cases (is_slow f room runs calls i)) [
          | inl slow ↦
              let e' =
                some-injective (i, suc calls) (upper, calls') (rw (small, slow, find_upper) at e) in
              subst (IsUpper start) (ap (λ (r : ℕ × ℕ). r.0) e') (pos, (calls, slow), half)
          | inr fast ↦
              let back : i * 2 / 2 ≡ i = omega arith in
              find_upper-IsUpper start maxpages fuel (i * 2) (suc calls) upper calls' (omega arith)
                (inl (subst (λ n. IsMeasured n false) (sym back) (calls, fast)))
                (rw (small, fast, find_upper) at e)
        ]
      ]

  -- no number of pages that is tried is slow
  abbrev pub IsFlat : (start maxpages : ℕ) → Type 0
  IsFlat start maxpages = (k : ℕ) → start * 2 ^ k ≤ maxpages → IsMeasured (start * 2 ^ k) false

  find_upper-IsFlat :
      (maxpages fuel i calls : ℕ)
      → 0 < i
      → maxpages < i + fuel
      → find_upper f room runs maxpages fuel i calls ≡ none
      → IsFlat i maxpages
  unfolding find_upper
  find_upper-IsFlat maxpages zero i calls pos enough e k le =
      absurd (omega (arith, le_double i k, enough, le))
  find_upper-IsFlat maxpages (suc fuel) i calls pos enough e k le =
      elim (Bool-cases (ltb maxpages i)) [
        | inl large ↦
            let large' : maxpages < i = ground arith in
            absurd (omega (arith, le_double i k, large', le))
        | inr small ↦ elim (Bool-cases (is_slow f room runs calls i)) [
          | inl slow ↦ absurd (let e' = rw (small, slow, find_upper) at e in cc)
          | inr fast ↦
              later i k (calls, fast) le
                (find_upper-IsFlat maxpages fuel (i * 2) (suc calls) (omega arith) (omega arith)
                  (rw (small, fast, find_upper) at e))
        ]
      ]
    where
      later :
          (i k : ℕ)
          → IsMeasured i false
          → i * 2 ^ k ≤ maxpages
          → IsFlat (i * 2) maxpages
          → IsMeasured (i * 2 ^ k) false
      later i zero here le rest =
          let e : i * 2 ^ 0 ≡ i = omega arith in subst (λ n. IsMeasured n false) (sym e) here
      later i (suc k) here le rest =
          let e : i * 2 * 2 ^ k ≡ i * 2 ^ suc k = rw (pow-suc 2 k) (omega arith) in
          subst (λ n. IsMeasured n false) e (rest k (omega (arith, e, le)))

  -- Where `find_tlb` finds a number of pages, some measurement found one page more slow, and one found
  -- this number not slow, unless it is half of the first number that is tried; where it gives 0 instead,
  -- some measurement found each number that is tried not slow.
  pub find_tlb-IsEdge :
      (start maxpages : ℕ)
      → 0 < start
      → ((find_tlb f room runs start maxpages ≡ 0) × IsFlat start maxpages)
        ⊎ IsEdge start (find_tlb f room runs start maxpages)
  unfolding find_tlb
  find_tlb-IsEdge start maxpages pos =
      elim (Option-cases (find_upper f room runs maxpages (suc maxpages) start 0)) [
        | inl e ↦
            rw (e, find_tlb)
              (inl (refl, find_upper-IsFlat maxpages (suc maxpages) start 0 pos (omega arith) e))
        | inr ((upper, calls), e) ↦
            let h =
              find_upper-IsUpper start maxpages (suc maxpages) start 0 upper calls pos (inr refl)
                e in
            let positive = h.0 in
            rw (e, find_tlb)
              (inr (
                bisect-IsEdge start (upper - upper / 2) (upper / 2) upper calls (omega arith)
                  (omega arith) h.1 h.2))
      ]
