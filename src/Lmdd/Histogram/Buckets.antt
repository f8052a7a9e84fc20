-- ===== src/Lmdd/Histogram/Buckets.antt =====
-- Which bucket of its histogram lmdd (lmbench3/src/lmdd.c) counts a time in.
use native.Mathlib.Nat.{div-lt_iff_lt-mul, le-div_iff_mul-le}
use repo_support_tools.Base.{
  ℕ, zero, suc, ◌+◌, ◌-◌, ◌*◌, ◌/◌, ◌≤◌, ◌<◌, ◌≡◌, Bool, true, false, none, some, Bool-cases, inl,
  inr, refl, arith, dec_lt, if◌then◌else◌, ltb, ltb→lt, lt→ltb, ap,
}
use repo_support_tools.Base.Int.{pos, ltb_ℤ, ◌+ℤ◌, ◌-ℤ◌}
use repo_support_tools.Lmdd.Histogram.{step_of, find_bucket, bucket}

pos_add : (a b : ℕ) → pos a +ℤ pos b ≡ pos (a + b)
unfolding ◌+ℤ◌
pos_add a b = ground arith

module _ (mills step low : ℕ) (positive : 0 < step) (over : low ≤ mills) where
  -- the test of round `i`
  abbrev fits : ℕ → Bool
  fits i = ltb_ℤ (pos mills) (pos (i * step) +ℤ pos low)

  fits_true : (i : ℕ) → (mills - low) / step < i → fits i ≡ true
  fits_true i h =
      let less = (div-lt_iff_lt-mul {x = mills - low} {y = i} positive).0 h in
      rw (pos_add (i * step) low) (lt→ltb (mills + 0) (i * step + low + 0) (omega arith))

  fits_false : (i : ℕ) → i ≤ (mills - low) / step → fits i ≡ false
  fits_false i h =
      let more = (le-div_iff_mul-le {x = i} {y = mills - low} positive).0 h in
      rw (pos_add (i * step) low) (le-ltb (i * step + low + 0) (mills + 0) (omega arith))
    where
      le-ltb : (a b : ℕ) → a ≤ b → ltb b a ≡ false
      le-ltb a b e = ground arith

  find_bucket-some :
      (i k : ℕ)
      → i ≤ (mills - low) / step + 1
      → (mills - low) / step + 1 < i + k
      → find_bucket mills step (pos low) i k ≡ some ((mills - low) / step + 1)
  unfolding find_bucket
  find_bucket-some i zero lo hi = absurd (omega arith)
  find_bucket-some i (suc k) lo hi = elim (dec_lt ((mills - low) / step) i) [
    | yes h ↦ rw (fits_true i h) (ap some (omega arith))
    | no h ↦
        rw (fits_false i (omega arith)) (find_bucket-some (i + 1) k (omega arith) (omega arith))
  ]

  find_bucket-none :
      (i k : ℕ) → i + k ≤ (mills - low) / step + 1 → find_bucket mills step (pos low) i k ≡ none
  unfolding find_bucket
  find_bucket-none i zero hi = refl
  find_bucket-none i (suc k) hi =
      rw (fits_false i (omega arith)) (find_bucket-none (i + 1) k (omega arith))

step_of-pos : (high low : ℕ) → step_of (pos high) (pos low) ≡ (high - low) / 10
unfolding ◌-ℤ◌
step_of-pos high low = ground arith

-- The bucket of a time between the limits is told by a division: there are ten buckets, each a step
-- wide, a tenth of the range rounded down. A time behind the tenth of them and below the maximum is
-- counted nowhere.
pub bucket-div :
    (mills high low : ℕ)
    → low + 10 ≤ high
    → low ≤ mills
    → mills < high
    → let step = (high - low) / 10 in
      bucket mills (pos high) (pos low)
      ≡ (if ltb ((mills - low) / step) 10 then some ((mills - low) / step + 1) else none)
unfolding bucket
bucket-div mills high low wide over under =
    let step = (high - low) / 10 in
    let positive : 0 < step = omega arith in
    let first : ltb (mills + 0) (high + 0) ≡ true = ground arith in
    let second : ltb (mills + 0) (low + 0) ≡ false = ground arith in
    rw (first, second, step_of-pos high low)
      (elim (Bool-cases (ltb ((mills - low) / step) 10)) [
        | inl e ↦ rw e (
            find_bucket-some mills step low positive over 1 10 (omega arith)
              (let h = ltb→lt _ _ e in omega arith))
        | inr e ↦ rw e (find_bucket-none mills step low positive over 1 10 (ground arith))
      ])
