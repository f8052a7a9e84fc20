-- ===== src/Harness/Launch/Kills.antt =====
-- Which children `benchmp_parent` of lmbench3/src/lib_timing.c kills.
use mathlib.Core.List.{append-nil}
use repo_support_tools.Base.{
  ℕ, zero, suc, ◌-◌, ◌≡◌, min, Bool, true, false, List, [], ◌∷◌, ◌++◌, length, take, drop, ltb,
  Bool-cases, inl, inr, refl, ap, ◌∙◌,
}
use repo_support_tools.Doubles.{Doubles}
use repo_support_tools.Timing.Clock.{Clock}
use repo_support_tools.Timing.Results.{Results, insertinit, sizeof_result}
use repo_support_tools.Harness.Control.{
  Reply, interrupted, quiet, read_fails, reads, sends_exit, closes, Status, complete, fails, waits,
  lacks_memory, Collected, receive_all, Stage, continue, kill_from, delay, ask_children,
  run_children, gather_results, Ended, finish, benchmp_parent,
}
use repo_support_tools.Harness.Launch.{System}
use repo_support_tools.Harness.Launch.Counts.{kills_of, kills_of-append, range}

receive_all-kills :
    (n : ℕ) (es : List Reply) (pipe : List ℕ) → kills_of (receive_all n es pipe).actions ≡ []
unfolding receive_all kills_of
receive_all-kills zero es pipe = refl
receive_all-kills (suc n) [] pipe = refl
receive_all-kills (suc n) (interrupted ∷ es) pipe = refl
receive_all-kills (suc n) (quiet ∷ es) pipe = receive_all-kills (suc n) es pipe
receive_all-kills (suc n) (read_fails ∷ es) pipe = refl
receive_all-kills (suc n) (reads k ∷ es) pipe =
    let got = take (min k (suc n)) pipe in
    receive_all-kills (suc n - length got) es (drop (length got) pipe)

continue-kills :
    (got : Collected) (merged : Results) (rest : Stage)
    → kills_of got.actions ≡ []
    → kills_of rest.actions ≡ []
    → kills_of (continue got merged rest).actions ≡ []
unfolding continue
continue-kills got merged rest g h = by got.status refl
  where
    by : (status : Status) → got.status ≡ status → kills_of (continue got merged rest).actions ≡ []
    by complete e =
        rw (e)
          (kills_of-append got.actions rest.actions ∙ ap (λ l. l ++ kills_of rest.actions) g ∙ h)
    by fails e = rw (e) g
    by waits e = rw (e) g
    by lacks_memory e = rw (e) g

kill_from-kills : (i left : ℕ) → kills_of (kill_from i left) ≡ range i left
unfolding kill_from kills_of
kill_from-kills i zero = refl
kill_from-kills i (suc left) = ap (λ l. i ∷ l) (kill_from-kills (suc i) left)

delay-kills : (warmup : ℕ) → kills_of (delay warmup) ≡ []
unfolding kills_of
delay-kills warmup = elim (Bool-cases (ltb 0 warmup)) [ inl e ↦ rw (e) refl | inr e ↦ rw (e) refl ]

module _ (f : Doubles) (to_results : List ℕ → Results) (parallel repetitions : ℕ) where
  ask_children-kills :
      (left : ℕ) (es : List Reply) (pipe : List ℕ) (merged : Results)
      → kills_of (ask_children f to_results parallel repetitions left es pipe merged).actions ≡ []
  unfolding ask_children kills_of
  ask_children-kills zero es pipe merged = refl
  ask_children-kills (suc left) es pipe merged =
      continue-kills (receive_all (sizeof_result repetitions) es pipe) merged _
        (receive_all-kills (sizeof_result repetitions) es pipe) (ask_children-kills left _ _ _)

  run_children-kills :
      (es : List Reply) (pipe : List ℕ) (merged : Results)
      → kills_of (run_children f to_results parallel repetitions es pipe merged).actions ≡ []
  unfolding run_children kills_of
  run_children-kills es pipe merged =
      continue-kills (receive_all parallel es pipe) merged _ (receive_all-kills parallel es pipe)
        (ask_children-kills parallel _ _ (insertinit merged))

  gather_results-kills :
      (warmup : ℕ) (es : List Reply) (pipe : List ℕ) (merged : Results)
      → kills_of (gather_results f to_results parallel repetitions warmup es pipe merged).actions
        ≡ []
  unfolding gather_results
  gather_results-kills warmup es pipe merged =
      let ready = receive_all parallel es pipe in
      let rest = run_children f to_results parallel repetitions ready.answers ready.pipe merged in
      continue-kills ready merged _ (receive_all-kills parallel es pipe) (
        kills_of-append (delay warmup) rest.actions
        ∙ ap (λ l. l ++ kills_of rest.actions) (delay-kills warmup)
        ∙ run_children-kills ready.answers ready.pipe merged)

  -- A complete run kills no child; one that fails kills every child and keeps the clock, and
  -- one without memory kills no child and keeps the clock.
  abbrev pub Kills : Clock → Status → List ℕ → Clock → Type 0
  Kills before complete ks clock = ks ≡ []
  Kills before fails ks clock = (ks ≡ range 0 parallel) × (clock ≡ before)
  Kills before waits ks clock = Unit
  Kills before lacks_memory ks clock = (ks ≡ []) × (clock ≡ before)

  abbrev pub EndKills : Clock → Ended → Type 0
  EndKills before e = Kills before e.status (kills_of e.actions) e.clock

  finish-EndKills :
      (s : Stage) (clock : Clock)
      → kills_of s.actions ≡ []
      → EndKills clock (finish f to_results parallel repetitions s clock)
  unfolding finish kills_of
  finish-EndKills s clock none' = by s.status refl
    where
      by :
          (status : Status)
          → s.status ≡ status
          → EndKills clock (finish f to_results parallel repetitions s clock)
      by complete e =
          rw (e) (
            kills_of-append s.actions (sends_exit parallel ∷ closes ∷ []) ∙ ap (λ l. l ++ []) none')
      by fails e = rw (e) (
        kills_of-append (s.actions ++ kill_from 0 parallel) (closes ∷ [])
            ∙ append-nil _
            ∙ kills_of-append s.actions (kill_from 0 parallel)
            ∙ ap (λ l. l ++ kills_of (kill_from 0 parallel)) none'
            ∙ kill_from-kills 0 parallel,
        refl,
      )
      by waits e = rw (e) tt
      by lacks_memory e = rw (e) (none', refl)

  pub benchmp_parent-EndKills :
      (signalled allocated : Bool) (warmup : ℕ) (sys : System) (clock : Clock)
      → EndKills clock (
          benchmp_parent f to_results parallel repetitions signalled allocated warmup sys.answers
            sys.pipe sys.v clock)
  unfolding benchmp_parent kills_of
  benchmp_parent-EndKills true allocated warmup sys clock = finish-EndKills _ clock refl
  benchmp_parent-EndKills false true warmup sys clock =
      finish-EndKills _ clock (gather_results-kills warmup sys.answers sys.pipe _)
  benchmp_parent-EndKills false false warmup sys clock = (refl, refl)
