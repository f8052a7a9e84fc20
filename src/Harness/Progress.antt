-- ===== src/Harness/Progress.antt =====
-- An experiment with several children ends: `benchmp_interval` of lmbench3/src/lib_timing.c in a
-- child of a parallel run, where the iterations are constant.
use repo_support_tools.Base.{
  ℕ, ◌+◌, ◌<◌, ◌≡◌, Bool, true, false, ◌&&◌, Option, none, some, List, [], ◌∷◌, if◌then◌else◌, ltb,
  leb, length, All, Bool-cases, inl, inr, arith, ◌==◌, refl, ap, not, ◌∙◌,
}
use repo_support_tools.Doubles.{Doubles}
use repo_support_tools.Timing.Clock.{Clock, gettime, get_n}
use repo_support_tools.Timing.Results.{insertsort}
use repo_support_tools.Harness.{
  Phase, warmup, timing_interval, cooldown, is_warmup, is_cooldown, ChildState, Inputs, Effect,
  Outcome, restart, record_interval, rescale, announce, act, measure, benchmp_interval, run, follow,
}

-- `b` is what `benchmp_interval` makes of the counters of `s` in one interval
record IsNext (s b : ChildState) : Type 0 where
  counted : b.i ≡ s.i + 1
  moved : b.state ≡ (if leb s.repetitions (s.i + 1) then cooldown else timing_interval)
  same_iterations : b.iterations ≡ s.iterations
  same_parallel : b.parallel ≡ s.parallel
  same_repetitions : b.repetitions ≡ s.repetitions

abbrev goes_on : Option ℕ → Bool
goes_on none = false
goes_on (some n) = true

abbrev is_timing : Phase → Bool
is_timing p = not (is_warmup p) && not (is_cooldown p)

otherwise :
    {A : Type 0} (P : A → Type 0) (b : Bool) (x y : A) → b ≡ false → P y → P (if b then x else y)
otherwise P true x y h p = absurd (cc)
otherwise P false x y h p = p

follow_next :
    (n : Option ℕ) (rest : ChildState × List Effect) (o : Outcome)
    → goes_on n ≡ true
    → (follow n rest o).0 ≡ rest.0
unfolding follow
follow_next none rest o h = absurd (cc)
follow_next (some n) rest o h = refl

module _ (f : Doubles) where
  record_interval_parallel :
      (result : f.D) (s : ChildState)
      → 1 < s.parallel
      → record_interval f result s ≡ record s {
        r = insertsort f (gettime s.clock) (get_n s.clock) s.r;
        i = s.i + 1;
        state = if leb s.repetitions (s.i + 1) then cooldown else s.state;
      }
  unfolding record_interval
  record_interval_parallel result s many =
      let several : ltb 1 s.parallel ≡ true = ground arith in rw several

  rescale_parallel : (result : f.D) (s : ChildState) → 1 < s.parallel → rescale f result s ≡ s
  unfolding rescale
  rescale_parallel result s many =
      let several : (s.parallel == 1) ≡ false = ground arith in rw several

  announce-next :
      (e : Inputs) (s : ChildState) (effects : List Effect)
      → goes_on (announce e s effects).next ≡ true
        × (c : Clock) × (announce e s effects).s ≡ record s { clock = c }
  unfolding announce restart
  announce-next e s effects = elim (Bool-cases (is_cooldown s.state)) [
    | inl ended ↦ rw ended (refl, _, refl)
    | inr going ↦ rw going (refl, _, refl)
  ]

  act-IsNext :
      (p : Phase) (result : f.D) (e : Inputs) (s : ChildState) (effects : List Effect)
      → p ≡ timing_interval
      → s.state ≡ p
      → 1 < s.parallel
      → goes_on (act f p result e s effects).next ≡ true × IsNext s (act f p result e s effects).s
  unfolding act
  act-IsNext warmup result e s effects p_is at many = let never = ap is_timing p_is in absurd (cc)
  act-IsNext cooldown result e s effects p_is at many = let never = ap is_timing p_is in absurd (cc)
  act-IsNext timing_interval result e s effects p_is at many =
      rw (record_interval_parallel result s many)
        let next : ChildState = record s {
          r = insertsort f (gettime s.clock) (get_n s.clock) s.r;
          i = s.i + 1;
          state = if leb s.repetitions (s.i + 1) then cooldown else s.state;
        } in
          rw (rescale_parallel result next many)
            let o = announce-next e next effects in
              (
                o.0,
                rw (o.2) record {
                  counted = refl;
                  moved = rw at;
                  same_iterations = refl;
                  same_parallel = refl;
                  same_repetitions = refl;
                },
              )

  module _ (t_overhead : ℕ) (l_overhead unset : f.D) where
    interval-IsNext :
        (e : Inputs) (s : ChildState)
        → e.orphaned ≡ false
        → s.state ≡ timing_interval
        → 1 < s.parallel
        → goes_on (benchmp_interval f t_overhead l_overhead unset e s).next ≡ true
          × IsNext s (benchmp_interval f t_overhead l_overhead unset e s).s
    unfolding benchmp_interval
    interval-IsNext e s alive at many =
        let next =
          act-IsNext s.state _ e
            (record s { clock = (measure f t_overhead l_overhead unset e s).1 }) _ at refl many in
        otherwise (λ (o : Outcome). goes_on o.next ≡ true × IsNext s o.s)
          (e.orphaned && s.has_cleanup) _ _ (rw alive refl)
          (
            next.0,
            record {
              counted = next.1.counted;
              moved = next.1.moved;
              same_iterations = next.1.same_iterations;
              same_parallel = next.1.same_parallel;
              same_repetitions = next.1.same_repetitions;
            },
          )

    -- A child of several that has been started and is not orphaned ends its experiment after as many
    -- intervals as measurements are left, and has not changed the number of iterations.
    pub run-ends :
        (es : List Inputs) (s : ChildState)
        → All (λ e. e.orphaned ≡ false) es
        → s.state ≡ timing_interval
        → 1 < s.parallel
        → 0 < length es
        → s.i + length es ≡ s.repetitions
        → (run f t_overhead l_overhead unset es s).0.state ≡ cooldown
          × (run f t_overhead l_overhead unset es s).0.i ≡ s.repetitions
          × (run f t_overhead l_overhead unset es s).0.iterations ≡ s.iterations
    unfolding run
    run-ends [] s alive at many some_left left = absurd (omega arith)
    run-ends (e ∷ []) s alive at many some_left left =
        let o = interval-IsNext e s alive.0 at many in
        let last : leb s.repetitions (s.i + 1) ≡ true = ground arith in
        rw (follow_next _ (_, []) (benchmp_interval f t_overhead l_overhead unset e s) o.0)
          (o.1.moved ∙ rw last refl, o.1.counted ∙ left, o.1.same_iterations)
    run-ends (e ∷ e' ∷ es) s alive at many some_left left =
        let b = benchmp_interval f t_overhead l_overhead unset e s in
        let o = interval-IsNext e s alive.0 at many in
        let more : leb s.repetitions (s.i + 1) ≡ false = ground arith in
        let rest =
          run-ends (e' ∷ es) b.s alive.1 (o.1.moved ∙ rw more refl)
            (omega (arith, o.1.same_parallel)) (omega arith)
            (omega (arith, o.1.counted, o.1.same_repetitions)) in
        rw (follow_next b.next (run f t_overhead l_overhead unset (e' ∷ es) b.s) b o.0)
          (rest.0, rest.1 ∙ o.1.same_repetitions, rest.2 ∙ o.1.same_iterations)
