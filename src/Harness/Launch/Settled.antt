-- ===== src/Harness/Launch/Settled.antt =====
-- Which children a call of `benchmp` of lmbench3/src/lib_timing.c kills.
use mathlib.Core.List.{Perm, append-nil}
use mathlib.Core.List.Perm
use mathlib.Core.Path.{subst}
use repo_support_tools.Base.{
  ℕ, zero, suc, ◌-◌, ◌≡◌, min, Bool, true, false, List, [], ◌∷◌, ◌++◌, length, take, drop, ltb,
  Bool-cases, if◌then◌else◌, ◌&&◌, ◌||◌, ◌==◌, inl, inr, refl, sym, ap, ◌∙◌,
}
use repo_support_tools.Doubles.{Doubles}
use repo_support_tools.Timing.Calibration.{get_enough}
use repo_support_tools.Timing.Clock.{Clock, settime, gettime, save_n, get_n, tvdelta, tvsub}
use repo_support_tools.Timing.Results.{Results}
use repo_support_tools.Harness.Control.{
  Move, Status, complete, fails, waits, lacks_memory, Ended, benchmp_parent,
}
use repo_support_tools.Harness.Launch.{
  Step, System, Launched, await_children, exit_timeout, from_parent, fork_children, attend, launch,
  is_waiting, reset, parallel_iterations, benchmp,
}
use repo_support_tools.Harness.Launch.Counts.{
  kills_of, created, killed, created-append, killed-append, created-from_parent, killed-from_parent,
  await_children-quiet, range, Forks, fork_children-Forks,
}
use repo_support_tools.Harness.Launch.Kills.{Kills, EndKills, benchmp_parent-EndKills}

-- the fork loop, the parent's part and the wait for the children
steps-created :
    (ss aw : List Step) (as' : List Move) (l : List ℕ)
    → created ss ≡ l
    → created aw ≡ []
    → created (ss ++ from_parent as' ++ aw) ≡ l
steps-created ss aw as' l c w =
    created-append (ss ++ from_parent as') aw
    ∙ ap (λ r. created (ss ++ from_parent as') ++ r) w
    ∙ append-nil (created (ss ++ from_parent as'))
    ∙ created-append ss (from_parent as')
    ∙ ap (λ r. created ss ++ r) (created-from_parent as')
    ∙ append-nil (created ss)
    ∙ c

steps-killed :
    (ss aw : List Step) (as' : List Move)
    → killed ss ≡ []
    → killed aw ≡ []
    → killed (ss ++ from_parent as' ++ aw) ≡ kills_of as'
steps-killed ss aw as' k w =
    killed-append (ss ++ from_parent as') aw
    ∙ ap (λ r. killed (ss ++ from_parent as') ++ r) w
    ∙ append-nil (killed (ss ++ from_parent as'))
    ∙ killed-append ss (from_parent as')
    ∙ ap (λ r. r ++ killed (from_parent as')) k
    ∙ killed-from_parent as'

module _ (f : Doubles) (to_results : List ℕ → Results) (parallel repetitions : ℕ) where
  -- What a call leaves, apart from its timer: complete, it has killed no child; failed, it has
  -- killed just the children that it has created, and the clock is as before; without memory for the
  -- results, it has killed no child, and the clock is as before.
  abbrev Settled : Clock → Launched → Status → Type 0
  Settled before l complete = killed l.steps ≡ []
  Settled before l fails = Perm (killed l.steps) (created l.steps) × (l.clock ≡ before)
  Settled before l waits = Unit
  Settled before l lacks_memory = (killed l.steps ≡ []) × (l.clock ≡ before)

  abbrev pub Settles : Clock → Launched → Type 0
  Settles before l = Settled before l l.status

  attend-Settles :
      (warmup enough : ℕ) (sys : System) (clock : Clock) (ss : List Step)
      → created ss ≡ range 0 parallel
      → killed ss ≡ []
      → Settles clock (attend f to_results warmup repetitions enough parallel sys clock ss)
  unfolding attend
  attend-Settles warmup enough sys clock ss c k = by p.status refl
    where
      p : Ended
      p =
          benchmp_parent f to_results parallel repetitions sys.signalled sys.allocated warmup
            sys.answers sys.pipe sys.v clock

      kills : EndKills f to_results parallel repetitions clock p
      kills =
          benchmp_parent-EndKills f to_results parallel repetitions sys.signalled sys.allocated
            warmup sys clock

      aw : List Step
      aw = await_children sys.slow parallel (exit_timeout enough)

      waited : (created aw ≡ []) × (killed aw ≡ [])
      waited = await_children-quiet sys.slow parallel (exit_timeout enough)

      by :
          (status : Status)
          → p.status ≡ status
          → Settles clock (attend f to_results warmup repetitions enough parallel sys clock ss)
      by complete e =
          let none' : kills_of p.actions ≡ [] =
            subst
              (λ t. Kills f to_results parallel repetitions clock t (kills_of p.actions) p.clock) e
              kills in
          rw (e) (steps-killed ss aw p.actions k waited.1 ∙ none')
      by fails e =
          let each =
            subst
              (λ t. Kills f to_results parallel repetitions clock t (kills_of p.actions) p.clock) e
              kills in
          let children = steps-created ss aw p.actions (range 0 parallel) c waited.0 in
          let same = steps-killed ss aw p.actions k waited.1 ∙ each.0 ∙ sym children in
          rw (e) (
            subst (λ l. Perm l (created (ss ++ from_parent p.actions ++ aw))) (sym same)
                (Perm.refl (created (ss ++ from_parent p.actions ++ aw))),
            each.1,
          )
      by waits e = rw (e) tt
      by lacks_memory e =
          let none' =
            subst
              (λ t. Kills f to_results parallel repetitions clock t (kills_of p.actions) p.clock) e
              kills in
          rw (e) (steps-killed ss aw p.actions k waited.1 ∙ none'.0, none'.1)

  -- A call of `benchmp` from its pipes on, apart from the timer that ends children which are too slow.
  -- Where it fails, by the pipes or `pids`, in the fork loop, or in the parent by a signal, a `read` or
  -- a pipe in error, it has killed just the children that it has created, each once, and has kept the
  -- time and the count. Where a `malloc` of `benchmp_parent` fails, it has killed none of the children
  -- and has kept the time and the count. Where it is complete, it has killed none.
  pub launch-Settles :
      (warmup enough iterations : ℕ) (sys : System) (clock : Clock)
      → Settles clock (launch f to_results warmup repetitions enough parallel iterations sys clock)
  unfolding launch created killed
  launch-Settles warmup enough iterations sys clock =
      elim (Bool-cases (sys.pipes_made && sys.pids_allocated)) [
        | inr e ↦ rw (e) (Perm.refl [], refl)
        | inl e ↦ rw (e) (
            by (fork_children sys.forks iterations 0 parallel)
              (fork_children-Forks sys.forks iterations 0 parallel))
      ]
    where
      by :
          (r : Bool × List Step)
          → Forks 0 parallel r
          → Settles clock (
              if r.0
              then attend f to_results warmup repetitions enough parallel sys clock r.1
              else record { status = fails; steps = r.1; clock = clock })
      by (true, ss) h = attend-Settles warmup enough sys clock ss h.0 h.1
      by (false, ss) h = (subst (λ l. Perm (killed ss) l) (append-nil (created ss)) h, refl)

module _ (f : Doubles) (to_results : List ℕ → Results) (warmup repetitions : ℕ) where
  -- the time 0 for the count 1
  abbrev Blank : Clock → Type 0
  Blank clock = (gettime clock ≡ 0) × (get_n clock ≡ 1)

  reset-Blank : (clock : Clock) → Blank (reset clock)
  unfolding settime gettime save_n get_n tvdelta tvsub repo_support_tools.Base.Int.◌-ℤ◌
  reset-Blank clock = (refl, refl)

  launch-Blank :
      (enough parallel iterations : ℕ) (sys : System) (clock : Clock)
      → (launch f to_results warmup repetitions enough parallel iterations sys (reset clock)).status
        ≡ fails
      → Blank
          (launch f to_results warmup repetitions enough parallel iterations sys
            (reset clock)).clock
  launch-Blank enough parallel iterations sys clock e =
      let c = reset clock in
      let l = launch f to_results warmup repetitions enough parallel iterations sys (reset clock) in
      let s =
        launch-Settles f to_results parallel repetitions warmup enough iterations sys
          (reset clock) in
      let kept = subst (λ t. Settled f to_results parallel repetitions c l t) e s in
      subst Blank (sym kept.1) (reset-Blank clock)

  -- Where `benchmp` fails, for its baseline or for its parallel run, it reports the time 0 for the
  -- count 1.
  pub benchmp-failed :
      (long_enough enough parallel : ℕ) (base sys : System) (clock : Clock)
      → (benchmp f to_results warmup repetitions long_enough enough parallel base sys clock).status
        ≡ fails
      → Blank
          (benchmp f to_results warmup repetitions long_enough enough parallel base sys clock).clock
  unfolding benchmp
  benchmp-failed long_enough enough parallel base sys clock =
      let enough' = get_enough long_enough enough in
      let b =
        launch f to_results warmup repetitions (get_enough long_enough enough') 1 1 base
          (reset (reset clock)) in
      elim (Bool-cases (ltb 1 parallel)) [
        | inr single ↦ rw (single) (λ e. launch-Blank enough' parallel 1 sys clock e)
        | inl many ↦ elim (Bool-cases (is_waiting b.status || gettime b.clock == 0)) [
          | inl over ↦
              rw (many, over)
                (λ e. launch-Blank (get_enough long_enough enough') 1 1 base (reset clock) e)
          | inr on ↦
              rw (many, on)
                (λ e.
                  launch-Blank enough' parallel
                    (parallel_iterations f to_results warmup repetitions enough' b.clock) sys
                    b.clock e)
        ]
      ]
