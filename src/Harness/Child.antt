-- ===== src/Harness/Child.antt =====
-- The state that `benchmp_interval` of lmbench3/src/lib_timing.c keeps between its calls.
use mathlib.Core.Path.{subst}
use repo_support_tools.Base.{
  ℕ, ◌+◌, ◌≤◌, ◌<◌, ◌≡◌, Bool, true, false, ◌&&◌, ◌||◌, Option, none, some, List, [], ◌∷◌,
  if◌then◌else◌, ltb, leb, length, Bool-cases, inl, inr, arith, ◌==◌, refl,
}
use repo_support_tools.Doubles.{Doubles, IsOrdered}
use repo_support_tools.Timing.Clock.{Clock, get_n, gettime}
use repo_support_tools.Timing.Results.{Value, Results, insertinit, insertsort}
use repo_support_tools.Timing.Results.Order
use repo_support_tools.Timing.Results.Place.{length-insertsort}
use repo_support_tools.Harness.{
  Phase, warmup, timing_interval, cooldown, is_warmup, is_cooldown, ChildState, Inputs, Effect,
  Outcome, restart, in_warmup, in_cooldown, child_state, record_interval, rescale, announce, act,
  literal, benchmp_child, benchmp_interval, run, follow,
}

module _ (f : Doubles) where
  -- The result set is in order and has room for another measurement until the experiment has
  -- ended; only a child that is still warming up has not been started.
  pub record IsReady (s : ChildState) : Type 0 where
    pub measured : Order.IsValid f s.r
    pub stored : s.r.count ≤ s.i
    pub room : is_cooldown s.state ≡ false → s.i < length s.r.v
    pub fits : s.repetitions ≤ length s.r.v
    pub warm : s.need_warmup ≡ true → is_warmup s.state ≡ true

  reclock-IsReady : (c : Clock) (s : ChildState) → IsReady s → IsReady (record s { clock = c })
  reclock-IsReady c s v = record {
    measured = v.measured;
    stored = v.stored;
    room = v.room;
    fits = v.fits;
    warm = v.warm;
  }

  in_warmup-IsReady :
      (e : Inputs) (s : ChildState) (effects : List Effect)
      → is_cooldown s.state ≡ false
      → IsReady s
      → IsReady (in_warmup e s effects).s
  unfolding in_warmup restart
  in_warmup-IsReady e s effects timing v = record {
    measured = v.measured;
    stored = v.stored;
    room = λ _. v.room timing;
    fits = v.fits;
    warm = λ never. absurd (cc);
  }

  in_cooldown-IsReady :
      (e : Inputs) (s : ChildState) (effects : List Effect)
      → IsReady s
      → IsReady (in_cooldown e s effects).s
  unfolding in_cooldown restart
  in_cooldown-IsReady e s effects v = elim (Bool-cases e.result_signalled) [
    | inl signalled ↦ rw signalled v
    | inr silent ↦ rw silent (reclock-IsReady _ s v)
  ]

  advance-IsReady :
      (n : ℕ) (p : Phase) (s : ChildState)
      → (is_cooldown p ≡ false → is_cooldown s.state ≡ false)
      → s.need_warmup ≡ false
      → IsReady s
      → IsReady (record s { iterations = n; state = p })
  advance-IsReady n p s kept started v = record {
    measured = v.measured;
    stored = v.stored;
    room = λ h. v.room (kept h);
    fits = v.fits;
    warm = λ never. absurd (cc);
  }

  cooldown_if : (b : Bool) (p : Phase) → is_cooldown (if b then cooldown else p) ≡ false → b ≡ false
  cooldown_if true p h = absurd (cc)
  cooldown_if false p h = refl

  kept_if :
      (b : Bool) (p : Phase)
      → is_cooldown (if b then cooldown else p) ≡ false
      → is_cooldown p ≡ false
  kept_if true p h = absurd (cc)
  kept_if false p h = h

  rescale-IsReady :
      (result : f.D) (s : ChildState)
      → s.need_warmup ≡ false
      → IsReady s
      → IsReady (rescale f result s)
  unfolding rescale
  rescale-IsReady result s started v =
      let enough = f.of_ℕ s.enough in
      elim (Bool-cases (
        (s.parallel == 1)
        && (f.lt result (f.mul (literal f 99 100) enough)
            || f.lt (f.mul (literal f 12 10) enough) result))) [
              | inr e ↦ rw e v
              | inl e ↦ elim (Bool-cases (f.lt (f.of_ℕ 150) result)) [
                | inl long ↦ rw (e, long) (advance-IsReady _ s.state s (λ h. h) started v)
                | inr short ↦ rw (e, short) (advance-IsReady _ _ s (kept_if _ s.state) started v)
              ]
            ]

  announce-IsReady :
      (e : Inputs) (s : ChildState) (effects : List Effect)
      → IsReady s
      → IsReady (announce e s effects).s
  unfolding announce restart
  announce-IsReady e s effects v = elim (Bool-cases (is_cooldown s.state)) [
    | inl ended ↦ rw ended (reclock-IsReady _ s v)
    | inr going ↦ rw going (reclock-IsReady _ s v)
  ]

  count_bound : (u n : ℕ) (r : Results) → (insertsort f u n r).count ≤ r.count + 1
  unfolding insertsort
  count_bound u n r = elim (Bool-cases (u == 0)) [
    | inl e ↦ rw e (omega arith)
    | inr e ↦ rw e (omega arith)
  ]

  module _ (o : IsOrdered f) where
    record_interval-IsReady :
        (result : f.D) (s : ChildState)
        → is_cooldown s.state ≡ false
        → s.need_warmup ≡ false
        → IsReady s
        → IsReady (record_interval f result s)
    unfolding record_interval
    record_interval-IsReady result s timing started v =
        elim (Bool-cases
          (ltb 1 s.parallel || f.lt (f.mul (literal f 95 100) (f.of_ℕ s.enough)) result)) [
            | inr e ↦ rw e v
            | inl e ↦ rw e (record {
              measured =
                  Order.insertsort-IsValid f o (gettime s.clock) (get_n s.clock) s.r v.measured
                    (omega (arith, v.stored, v.room timing));
              stored = omega (arith, count_bound (gettime s.clock) (get_n s.clock) s.r, v.stored);
              room = λ h. omega (
                arith,
                less (cooldown_if (leb s.repetitions (s.i + 1)) s.state h),
                length-insertsort f (gettime s.clock) (get_n s.clock) s.r,
                v.fits,
              );
              fits = rw (length-insertsort f (gettime s.clock) (get_n s.clock) s.r) v.fits;
              warm = λ never. absurd (cc);
            })
          ]
      where
        less : leb s.repetitions (s.i + 1) ≡ false → s.i + 1 < s.repetitions
        less h = ground arith

    started-record_interval :
        (result : f.D) (s : ChildState)
        → s.need_warmup ≡ false
        → (record_interval f result s).need_warmup ≡ false
    unfolding record_interval
    started-record_interval result s started =
        elim (Bool-cases
          (ltb 1 s.parallel || f.lt (f.mul (literal f 95 100) (f.of_ℕ s.enough)) result)) [
            | inl e ↦ rw e started
            | inr e ↦ rw e started
          ]

    timing-started :
        (s : ChildState) → s.state ≡ timing_interval → IsReady s → s.need_warmup ≡ false
    timing-started s at v = elim (Bool-cases s.need_warmup) [
      | inl w ↦ let never = subst (λ p. is_warmup p ≡ true) at (v.warm w) in absurd (cc)
      | inr e ↦ e
    ]

    act-IsReady :
        (p : Phase) (result : f.D) (e : Inputs) (s : ChildState) (effects : List Effect)
        → s.state ≡ p
        → IsReady s
        → IsReady (act f p result e s effects).s
    unfolding act
    act-IsReady warmup result e s effects at v = in_warmup-IsReady e s effects (rw at refl) v
    act-IsReady timing_interval result e s effects at v =
        let started = timing-started s at v in
        announce-IsReady e _ effects (
          rescale-IsReady result _ (started-record_interval result s started)
            (record_interval-IsReady result s (rw at refl) started v))
    act-IsReady cooldown result e s effects at v = in_cooldown-IsReady e s effects v

    module _ (t_overhead : ℕ) (l_overhead unset : f.D) where
      pub benchmp_interval-IsReady :
          (e : Inputs) (s : ChildState)
          → IsReady s
          → IsReady (benchmp_interval f t_overhead l_overhead unset e s).s
      unfolding benchmp_interval
      benchmp_interval-IsReady e s v = elim (Bool-cases (e.orphaned && s.has_cleanup)) [
        | inl dead ↦ rw dead (reclock-IsReady _ s v)
        | inr alive ↦ rw alive (act-IsReady s.state _ e _ _ refl (reclock-IsReady _ s v))
      ]

      run-IsReady :
          (es : List Inputs) (s : ChildState)
          → IsReady s
          → IsReady (run f t_overhead l_overhead unset es s).0
      unfolding run follow
      run-IsReady [] s v = v
      run-IsReady (e ∷ es) s v =
          let o' = benchmp_interval f t_overhead l_overhead unset e s in
          let w = benchmp_interval-IsReady e s v in
          follow-IsReady o'.next (run f t_overhead l_overhead unset es o'.s) o' w
            (run-IsReady es o'.s w)
        where
          follow-IsReady :
              (n : Option ℕ) (rest : ChildState × List Effect) (o : Outcome)
              → IsReady o.s
              → IsReady rest.0
              → IsReady (follow n rest o).0
          follow-IsReady none rest o h k = h
          follow-IsReady (some n) rest o h k = k

      -- Whatever the system answers, the child keeps its results in order and inside the array that
      -- `benchmp_child` allocates, which has room for `repetitions` and at least one of them.
      pub benchmp_child-IsReady :
          (sigterm_received : Bool) (es : List Inputs)
          → (has_initialize has_cleanup : Bool)
          → (enough iterations parallel repetitions : ℕ) (v : List Value) (clock : Clock)
          → 0 < length v
          → repetitions ≤ length v
          → IsReady
              (benchmp_child f t_overhead l_overhead unset sigterm_received es (
                child_state has_initialize has_cleanup enough iterations parallel repetitions v
                  clock)).0
      unfolding benchmp_child child_state insertinit
      benchmp_child-IsReady sigterm_received es has_initialize has_cleanup enough iterations
            parallel repetitions v clock some_room fits =
          let ready = child_state-IsReady in
          elim (Bool-cases sigterm_received) [
            | inl e ↦ rw e ready
            | inr e ↦ rw e (run-IsReady es _ ready)
          ]
        where
          child_state-IsReady : IsReady (
              child_state has_initialize has_cleanup enough iterations parallel repetitions v clock)
          child_state-IsReady = record {
            measured = record { room = omega arith; positive = tt; descending = tt };
            stored = omega arith;
            room = λ _. some_room;
            fits = fits;
            warm = λ _. refl;
          }
