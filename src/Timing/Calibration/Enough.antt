-- ===== src/Timing/Calibration/Enough.antt =====
-- What `find_N` of lmbench3/src/lib_timing.c finds.
use repo_support_tools.Base.{ℕ, zero, suc, ◌≡◌, true, false, ◌==◌, ◌⊎◌, inl, inr, refl, Bool-cases}
use repo_support_tools.Doubles.{Doubles}
use repo_support_tools.Timing.Clock.{Timeval}
use repo_support_tools.Timing.Results.{Results}
use repo_support_tools.Timing.Calibration.{
  Calibration, time_N, fits, next_work, retime, find_loop, find_N,
}

module _ (f : Doubles) (outer : Results) (reading : ℕ → Timeval) where
  -- `usecs` is a time that has been measured for `work`.
  abbrev pub IsTimed : Calibration → Type 0
  IsTimed s = (before : Calibration) × ((time_N f outer reading s.work before).0 ≡ s.usecs)

  -- What a search gives: no work, or the work that the static variables hold, with a time in range.
  abbrev pub Finds : (enough : ℕ) → ℕ × Calibration → Type 0
  Finds enough result =
      (result.0 ≡ 0)
      ⊎ ((result.0 ≡ result.1.work)
          × (fits f outer reading enough result.1.usecs ≡ true)
          × IsTimed result.1)

  retime-IsTimed : (s : Calibration) → IsTimed (retime f outer reading s)
  unfolding time_N
  retime-IsTimed s = (s, refl)

  find_loop-Finds :
      (enough k : ℕ) (s : Calibration)
      → IsTimed s
      → Finds enough (find_loop f outer reading enough k s)
  unfolding find_loop
  find_loop-Finds enough zero s timed = inl refl
  find_loop-Finds enough (suc k) s timed = elim (Bool-cases (fits f outer reading enough s.usecs)) [
    | inl e ↦ rw e (inr (refl, e, timed))
    | inr e ↦ rw e (
        find_loop-Finds enough k _
          (retime-IsTimed (record s { work = next_work f outer reading enough s.work s.usecs })))
  ]

  -- The work that `find_N` returns is 0 or one for which `time_N` has measured a time within 2 percent
  -- of `enough`: it stays in the static variables with that time. On entry the static time is 0 or has
  -- been measured for the static work.
  pub find_N-Finds :
      (enough : ℕ) (s : Calibration)
      → ((s.usecs == 0) ≡ true) ⊎ IsTimed s
      → Finds enough (find_N f outer reading enough s)
  unfolding find_N
  find_N-Finds enough s start = elim (Bool-cases (s.usecs == 0)) [
    | inl e ↦ rw e (find_loop-Finds enough 10 _ (retime-IsTimed s))
    | inr e ↦ rw e (find_loop-Finds enough 10 s (was_timed start e))
  ]
    where
      was_timed : ((s.usecs == 0) ≡ true) ⊎ IsTimed s → (s.usecs == 0) ≡ false → IsTimed s
      was_timed (inl zero_time) e = absurd (cc)
      was_timed (inr timed) e = timed
