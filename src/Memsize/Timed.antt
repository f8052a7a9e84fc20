-- ===== src/Memsize/Timed.antt =====
-- The size that `timeit` of lmbench3/src/memsize.c prints.
use mathlib.Core.Path.{subst}
use repo_support_tools.Base.{
  ℕ, zero, suc, ◌+◌, ◌-◌, ◌*◌, ◌/◌, ◌≤◌, ◌<◌, ◌≡◌, ◌⊎◌, inl, inr, Bool, true, false, Bool-cases,
  some, refl, sym, ◌∙◌, arith, ltb, leb, ◌&&◌,
}
use repo_support_tools.Memsize.{mb, double_above, next_incr, too_slow, time_ranges, timeit}

double_above-le : (range fuel s : ℕ) → s ≤ double_above range fuel s
unfolding double_above
double_above-le range zero s = omega arith
double_above-le range (suc fuel) s = elim (Bool-cases (leb s range)) [
  | inl e ↦ rw (e) (let h = double_above-le range fuel (s * 2) in omega arith)
  | inr e ↦ rw (e) (omega arith)
]

next_incr_pos : (size range : ℕ) → 0 < next_incr size range
unfolding next_incr
next_incr_pos size range =
    let incr = double_above range range (8 * mb) / 8 in
    let h = double_above-le range range (8 * mb) in
    elim (Bool-cases (ltb range size && ltb size (range + incr))) [
      | inl e ↦ rw (e) (ground arith)
      | inr e ↦ rw (e) (omega arith)
    ]

-- a step from below the size does not go past it, and the size itself is not left out
next_incr-within :
    (size range : ℕ) → range ≤ size → (range + next_incr size range ≤ size) ⊎ (range ≡ size)
unfolding next_incr
next_incr-within size range h =
    let incr = double_above range range (8 * mb) / 8 in
    elim (Bool-cases (ltb range size && ltb size (range + incr))) [
      | inl e ↦ rw (e) (inl (ground arith))
      | inr e ↦ rw (e) (split range size incr h e)
    ]
  where
    split : (r s i : ℕ) → r ≤ s → (ltb r s && ltb s (r + i)) ≡ false → (r + i ≤ s) ⊎ (r ≡ s)
    split r s i h e = elim (Bool-cases (ltb r s)) [
      | inl lt ↦ inl (ground arith)
      | inr ge ↦ inr (ground arith)
    ]

module _ (pagesize : ℕ) (times : ℕ → ℕ × Bool) (size : ℕ) where
  -- 1 MB, which is touched before the loop, or a range that was touched in time
  abbrev pub InTime : ℕ → Type 0
  InTime n = (n ≡ mb) ⊎ (too_slow pagesize times n ≡ false)

  -- a range that was too slow
  abbrev pub SlowAbove : ℕ → Type 0
  SlowAbove s = (n : ℕ) × (s < n) × (n ≤ size) × (too_slow pagesize times n ≡ true)

  abbrev pub IsTested : ℕ → Type 0
  IsTested s = (s ≤ size) × InTime s × ((s ≡ size) ⊎ SlowAbove s)

  time_ranges-IsTested :
      (fuel range incr : ℕ)
      → 0 < incr
      → incr ≤ range
      → (range ≤ size) ⊎ (range - incr ≡ size)
      → size < range + fuel
      → InTime (range - incr)
      → IsTested (time_ranges pagesize times size fuel range incr)
  unfolding time_ranges
  time_ranges-IsTested zero range incr pos le (inl h) enough ok = absurd (omega arith)
  time_ranges-IsTested zero range incr pos le (inr h) enough ok =
      (omega arith, subst InTime h ok, inl refl)
  time_ranges-IsTested (suc fuel) range incr pos le (inr h) enough ok =
      let over : leb range size ≡ false = ground arith in
      rw (over) (omega arith, subst InTime h ok, inl refl)
  time_ranges-IsTested (suc fuel) range incr pos le (inl h) enough ok =
      let inside : leb range size ≡ true = ground arith in
      let next = next_incr size range in
      let more : 0 < next = next_incr_pos size range in
      let back : range + next - next ≡ range = omega arith in
      elim (Bool-cases (too_slow pagesize times range)) [
        | inl slow ↦ rw (inside, slow) (omega arith, ok, inr (range, omega arith, h, slow))
        | inr fast ↦
            rw (inside, fast)
              (time_ranges-IsTested fuel (range + next) next more (omega arith)
                (elim (next_incr-within size range h) [ inl w ↦ inl w | inr e ↦ inr (back ∙ e) ])
                (omega arith) (subst InTime (sym back) (inr fast)))
      ]

-- Given a size of at least 2 MB, `timeit` prints, in MB, a size that is not larger, that was touched
-- in time (or is the first MB), and that is the whole size or below one that was too slow.
pub timeit-IsTested :
    (pagesize : ℕ) (times : ℕ → ℕ × Bool) (size : ℕ)
    → 2 * mb ≤ size
    → (s : ℕ) × (timeit pagesize times size ≡ some (s / mb)) × IsTested pagesize times size s
unfolding timeit
timeit-IsTested pagesize times size h =
    let good : ltb size (mb - 16 * 1024) ≡ false = ground arith in
    rw (good) (
      time_ranges pagesize times size size (2 * mb) mb,
      refl,
      time_ranges-IsTested pagesize times size size (2 * mb) mb (omega arith) (omega arith) (inl h)
          (omega arith) (inl refl),
    )
