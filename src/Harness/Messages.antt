-- ===== src/Harness/Messages.antt =====
-- What the child of lmbench3/src/lib_timing.c (`benchmp_interval`) sends to its parent, and when a
-- parallel experiment ends.
use mathlib.Core.List.{append_assoc, append-nil}
use repo_support_tools.Base.{
  ℕ, ◌+◌, ◌≡◌, Bool, true, false, ◌&&◌, ◌||◌, Option, none, some, List, [], ◌∷◌, ◌++◌,
  if◌then◌else◌, ltb, leb, Bool-cases, inl, inr, ◌==◌, refl, ◌∙◌,
}
use repo_support_tools.Doubles.{Doubles}
use repo_support_tools.Timing.Clock.{Timeval}
use repo_support_tools.Harness.{
  Phase, warmup, timing_interval, cooldown, is_warmup, is_cooldown, ChildState, Inputs, Effect,
  initializes, benchmarks, cleans_up, sends_ready, sends_done, sends_results, cleanup, Outcome,
  restart, in_warmup, in_cooldown, record_interval, rescale, announce, act, literal,
  benchmp_interval, run, follow, benchmp_child, interval_iterations,
}

-- the messages of the protocol, and those among the effects
pub data Message : Type 0 where
  ready : Message
  done : Message
  results : Message

unfoldable pub messages : List Effect → List Message
messages [] = []
messages (initializes n ∷ es) = messages es
messages (benchmarks n ∷ es) = messages es
messages (cleans_up n ∷ es) = messages es
messages (sends_ready ∷ es) = ready ∷ messages es
messages (sends_done ∷ es) = done ∷ messages es
messages (sends_results r ∷ es) = results ∷ messages es

-- what a child is still to send
unfoldable pub due : Phase → Bool → List Message
due warmup true = ready ∷ done ∷ results ∷ []
due warmup false = done ∷ results ∷ []
due timing_interval need_warmup = done ∷ results ∷ []
due cooldown need_warmup = results ∷ []

messages-append : (xs ys : List Effect) → messages (xs ++ ys) ≡ messages xs ++ messages ys
unfolding messages
messages-append [] ys = refl
messages-append (initializes n ∷ xs) ys = messages-append xs ys
messages-append (benchmarks n ∷ xs) ys = messages-append xs ys
messages-append (cleans_up n ∷ xs) ys = messages-append xs ys
messages-append (sends_ready ∷ xs) ys = rw (messages-append xs ys)
messages-append (sends_done ∷ xs) ys = rw (messages-append xs ys)
messages-append (sends_results r ∷ xs) ys = rw (messages-append xs ys)

messages-cleanup : (n : ℕ) (s : ChildState) → messages (cleanup n s) ≡ []
unfolding messages
messages-cleanup n s = elim (Bool-cases s.has_cleanup) [ inl e ↦ rw e | inr e ↦ rw e ]

messages-restart :
    (t : Timeval) (n : ℕ) (s : ChildState) (effects : List Effect)
    → messages (restart t n s effects).effects ≡ messages effects
unfolding restart messages
messages-restart t n s effects = elim (Bool-cases s.has_initialize) [
  | inl e ↦ rw (e, messages-append effects (initializes n ∷ []), append-nil (messages effects))
  | inr e ↦ rw (e, append-nil effects)
]

-- A call that goes on sends the first of the messages that are due and leaves the others; a call
-- that exits sends some of the first.
abbrev Advances : Option ℕ → Outcome → List Message → Type 0
Advances none o before = (rest : List Message) × messages o.effects ++ rest ≡ before
Advances (some n) o before = messages o.effects ++ due o.s.state o.s.need_warmup ≡ before

restart-Advances :
    (t : Timeval) (n : ℕ) (s : ChildState) (effects : List Effect) (before : List Message)
    → messages effects ++ due s.state s.need_warmup ≡ before
    → Advances (restart t n s effects).next (restart t n s effects) before
unfolding restart
restart-Advances t n s effects before h = rw (messages-effects) h
  where
    messages-effects :
        messages (effects ++ (if s.has_initialize then initializes n ∷ [] else []))
        ≡ messages effects
    messages-effects = messages-restart t n s effects

in_warmup-Advances :
    (e : Inputs) (s : ChildState) (effects : List Effect)
    → s.state ≡ warmup
    → messages effects ≡ []
    → Advances (in_warmup e s effects).next (in_warmup e s effects) (due warmup s.need_warmup)
unfolding in_warmup due messages
in_warmup-Advances e s effects at quiet = elim (Bool-cases e.start_signalled) [
  | inl go ↦ rw go (
      restart-Advances e.start_time s.iterations
        (record s { state = timing_interval; need_warmup = false }) _ _ (greeting s.need_warmup))
  | inr wait ↦ rw wait (
      restart-Advances e.start_time s.iterations_batch (record s { need_warmup = false }) _ _
        (rw at (greeting s.need_warmup)))
]
  where
    greeting :
        (b : Bool)
        → messages (effects ++ (if b then sends_ready ∷ [] else [])) ++ done ∷ results ∷ []
          ≡ due warmup b
    greeting true = rw (messages-append effects (sends_ready ∷ []), quiet)
    greeting false = rw (append-nil effects, quiet)

in_cooldown-Advances :
    (e : Inputs) (s : ChildState) (effects : List Effect)
    → s.state ≡ cooldown
    → messages effects ≡ []
    → Advances (in_cooldown e s effects).next (in_cooldown e s effects) (due cooldown s.need_warmup)
unfolding in_cooldown due messages
in_cooldown-Advances e s effects at quiet = elim (Bool-cases e.result_signalled) [
  | inl go ↦ rw go (
    [],
    rw (
      append-nil (messages (effects ++ sends_results s.r ∷ cleanup 0 s)),
      messages-append effects (sends_results s.r ∷ cleanup 0 s),
      quiet,
      messages-cleanup 0 s,
    ),
  )
  | inr wait ↦
      rw wait
        (restart-Advances e.start_time s.iterations_batch s effects (results ∷ []) (rw (quiet, at)))
]

due_going :
    (p : Phase) (b : Bool)
    → is_warmup p ≡ false
    → is_cooldown p ≡ false
    → due p b ≡ done ∷ results ∷ []
unfolding due
due_going warmup b h k = absurd (cc)
due_going timing_interval b h k = refl
due_going cooldown b h k = absurd (cc)

due_ended : (p : Phase) (b : Bool) → is_cooldown p ≡ true → due p b ≡ results ∷ []
unfolding due
due_ended warmup b h = absurd (cc)
due_ended timing_interval b h = absurd (cc)
due_ended cooldown b h = refl

announce-Advances :
    (e : Inputs) (s : ChildState) (effects : List Effect)
    → is_warmup s.state ≡ false
    → messages effects ≡ []
    → Advances (announce e s effects).next (announce e s effects) (done ∷ results ∷ [])
unfolding announce messages
announce-Advances e s effects warm quiet = elim (Bool-cases (is_cooldown s.state)) [
  | inl ended ↦ rw ended (
      restart-Advances e.start_time s.iterations_batch s (effects ++ sends_done ∷ []) _ (
        rw (
          messages-append effects (sends_done ∷ []),
          quiet,
          due_ended s.state s.need_warmup ended,
        )))
  | inr going ↦ rw going (
      restart-Advances e.start_time s.iterations s effects _
        (rw (quiet, due_going s.state s.need_warmup warm going)))
]

warm_if :
    (b : Bool) (p : Phase) → is_warmup p ≡ false → is_warmup (if b then cooldown else p) ≡ false
warm_if true p h = refl
warm_if false p h = h

messages-if :
    (b : Bool) (xs : List Effect) → messages xs ≡ [] → messages (if b then [] else xs) ≡ []
unfolding messages
messages-if true xs h = refl
messages-if false xs h = h

follow-messages :
    (n : Option ℕ) (o : Outcome) (rest : ChildState × List Effect) (before : List Message)
    → Advances n o before
    → ((left : List Message) × messages rest.1 ++ left ≡ due o.s.state o.s.need_warmup)
    → (left : List Message) × messages (follow n rest o).1 ++ left ≡ before
unfolding follow messages
follow-messages none o rest before h k = h
follow-messages (some n) o rest before h k = (
  k.0,
  rw
      (
        messages-append o.effects (benchmarks n ∷ rest.1),
        append_assoc (messages o.effects) (messages rest.1) k.0,
        k.1,
      )
      h,
)

module _ (f : Doubles) where
  record_interval_warm :
      (result : f.D) (s : ChildState)
      → is_warmup s.state ≡ false
      → is_warmup (record_interval f result s).state ≡ false
  unfolding record_interval
  record_interval_warm result s h =
      elim (Bool-cases
        (ltb 1 s.parallel || f.lt (f.mul (literal f 95 100) (f.of_ℕ s.enough)) result)) [
          | inl e ↦ rw e (warm_if (leb s.repetitions (s.i + 1)) s.state h)
          | inr e ↦ rw e h
        ]

  rescale_warm :
      (result : f.D) (s : ChildState)
      → is_warmup s.state ≡ false
      → is_warmup (rescale f result s).state ≡ false
  unfolding rescale
  rescale_warm result s h =
      let enough = f.of_ℕ s.enough in
      elim (Bool-cases (
        (s.parallel == 1)
        && (f.lt result (f.mul (literal f 99 100) enough)
            || f.lt (f.mul (literal f 12 10) enough) result))) [
              | inr e ↦ rw e h
              | inl e ↦ elim (Bool-cases (f.lt (f.of_ℕ 150) result)) [
                | inl long ↦ rw (e, long) h
                | inr short ↦ rw (e, short) (warm_if _ s.state h)
              ]
            ]

  act-Advances :
      (p : Phase) (result : f.D) (e : Inputs) (s : ChildState) (effects : List Effect)
      → s.state ≡ p
      → messages effects ≡ []
      → Advances
          (act f p result e s effects).next
          (act f p result e s effects)
          (due p s.need_warmup)
  unfolding act due
  act-Advances warmup result e s effects at quiet = in_warmup-Advances e s effects at quiet
  act-Advances timing_interval result e s effects at quiet =
      announce-Advances e _ effects
        (rescale_warm result _ (record_interval_warm result s (rw at refl))) quiet
  act-Advances cooldown result e s effects at quiet = in_cooldown-Advances e s effects at quiet

  module _ (t_overhead : ℕ) (l_overhead unset : f.D) where
    benchmp_interval-Advances :
        (e : Inputs) (s : ChildState)
        → Advances
            (benchmp_interval f t_overhead l_overhead unset e s).next
            (benchmp_interval f t_overhead l_overhead unset e s)
            (due s.state s.need_warmup)
    unfolding benchmp_interval
    benchmp_interval-Advances e s = elim (Bool-cases (e.orphaned && s.has_cleanup)) [
      | inl dead ↦
          rw dead (
            due s.state s.need_warmup,
            rw (messages-append before (cleans_up 0 ∷ []), quiet) silent,
          )
      | inr alive ↦ rw alive (act-Advances s.state _ e _ before refl quiet)
    ]
      where
        before : List Effect
        before = if s.need_warmup then [] else cleanup (interval_iterations s.state s) s

        silent :
            messages (cleans_up 0 ∷ []) ++ due s.state s.need_warmup ≡ due s.state s.need_warmup
        silent = unfold messages in refl

        quiet : messages before ≡ []
        quiet = messages-if s.need_warmup _ (messages-cleanup (interval_iterations s.state s) s)

    run-messages :
        (es : List Inputs) (s : ChildState)
        → (rest : List Message) × messages (run f t_overhead l_overhead unset es s).1 ++ rest
            ≡ due s.state s.need_warmup
    unfolding run
    run-messages [] s = (due s.state s.need_warmup, unfold messages in refl)
    run-messages (e ∷ es) s =
        let o = benchmp_interval f t_overhead l_overhead unset e s in
        follow-messages o.next o (run f t_overhead l_overhead unset es o.s)
          (due s.state s.need_warmup) (benchmp_interval-Advances e s) (run-messages es o.s)

    -- In every run the child sends ready, done and its results in this order, each at most once.
    pub benchmp_child-messages :
        (es : List Inputs) (s : ChildState)
        → s.state ≡ warmup
        → s.need_warmup ≡ true
        → (rest : List Message) × messages
                (benchmp_child f t_overhead l_overhead unset false es s).1
              ++ rest
            ≡ ready ∷ done ∷ results ∷ []
    unfolding benchmp_child
    benchmp_child-messages es s at fresh =
        let sent = run-messages es s in
        (
          sent.0,
          begins s.has_initialize (run f t_overhead l_overhead unset es s).1 sent.0
              ∙ sent.1
              ∙ all_due,
        )
      where
        begins :
            (b : Bool) (xs : List Effect) (left : List Message)
            → messages ((if b then initializes 0 ∷ [] else []) ++ xs) ++ left ≡ messages xs ++ left
        begins true xs left = unfold messages in refl
        begins false xs left = refl

        all_due : due s.state s.need_warmup ≡ ready ∷ done ∷ results ∷ []
        all_due = rw (at, fresh) (unfold due in refl)
