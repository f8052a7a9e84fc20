-- ===== src/Harness.antt =====
-- The measuring child of lmbench3/src/lib_timing.c: `benchmp_child_state`, `benchmp_child` and
-- `benchmp_interval`. What the system answers in a call (times, pipes, the parent's death) is an
-- input; what the child does to the outside is a list of effects. Signal dispositions are left out.
pub mod Child
pub mod Parent
pub mod Progress
pub mod Messages
pub mod Control
pub mod Launch
use repo_support_tools.Base.{
  ℕ, ◌+◌, ◌*◌, ◌%◌, ◌^◌, Bool, true, false, ◌&&◌, ◌||◌, Option, none, some, List, [], ◌∷◌, ◌++◌,
  if◌then◌else◌, ltb, leb, ◌==◌,
}
use repo_support_tools.Doubles.{Doubles}
use repo_support_tools.Timing.Clock.{Clock, Timeval, start, stop, settime, gettime, save_n, get_n}
use repo_support_tools.Timing.Results.{Value, Results, insertinit, insertsort}

-- `benchmp_state`
pub data Phase : Type 0 where
  warmup : Phase
  timing_interval : Phase
  cooldown : Phase

abbrev pub is_warmup : Phase → Bool
is_warmup warmup = true
is_warmup timing_interval = false
is_warmup cooldown = false

abbrev pub is_cooldown : Phase → Bool
is_cooldown warmup = false
is_cooldown timing_interval = false
is_cooldown cooldown = true

-- `benchmp_child_state`, without the file descriptors and the cookie. `has_initialize` and
-- `has_cleanup` say that the function pointers are not null; `r` is what `get_results` returns, and
-- `clock` holds the globals of the clock.
pub record ChildState : Type 0 where
  pub state : Phase
  pub has_initialize : Bool
  pub has_cleanup : Bool
  pub enough : ℕ
  pub iterations : ℕ
  pub parallel : ℕ
  pub repetitions : ℕ
  pub iterations_batch : ℕ
  pub need_warmup : Bool
  pub i : ℕ
  pub r : Results
  pub clock : Clock

-- what the system answers in one call of `benchmp_interval`
pub record Inputs : Type 0 where
  pub stop_time : Timeval
  pub start_time : Timeval
  -- `getppid() == 1`
  pub orphaned : Bool
  pub start_signalled : Bool
  pub result_signalled : Bool

pub data Effect : Type 0 where
  initializes : ℕ → Effect
  benchmarks : ℕ → Effect
  cleans_up : ℕ → Effect
  sends_ready : Effect
  sends_done : Effect
  sends_results : Results → Effect

-- what a call leaves: the count it returns (none where it exits), the state and the effects
pub record Outcome : Type 0 where
  pub next : Option ℕ
  pub s : ChildState
  pub effects : List Effect

-- `if (state->cleanup) (*state->cleanup)(iterations, state->cookie);`
abbrev pub cleanup : ℕ → ChildState → List Effect
cleanup n s = if s.has_cleanup then cleans_up n ∷ [] else []

-- the count that the interval before this call has run
abbrev pub interval_iterations : Phase → ChildState → ℕ
interval_iterations warmup s = s.iterations_batch
interval_iterations timing_interval s = s.iterations
interval_iterations cooldown s = s.iterations_batch

-- `if (state->initialize) (*state->initialize)(iterations, state->cookie); start(0);`
unfoldable pub restart : Timeval → ℕ → ChildState → List Effect → Outcome
restart t n s effects = record {
  next = some n;
  s = record s { clock = start t s.clock };
  effects = effects ++ (if s.has_initialize then initializes n ∷ [] else []);
}

-- `case warmup`; `need_warmup` is clear after it either way.
unfoldable pub in_warmup : Inputs → ChildState → List Effect → Outcome
in_warmup e s effects =
    let begun = if e.start_signalled then timing_interval else s.state in
    restart e.start_time (if e.start_signalled then s.iterations else s.iterations_batch)
      (record s { state = begun; need_warmup = false })
      (effects ++ (if s.need_warmup then sends_ready ∷ [] else []))

-- `case cooldown`
unfoldable pub in_cooldown : Inputs → ChildState → List Effect → Outcome
in_cooldown e s effects =
    if e.result_signalled
    then record { next = none; s = s; effects = effects ++ sends_results s.r ∷ cleanup 0 s }
    else restart e.start_time s.iterations_batch s effects

-- `benchmp_child` up to its loop, given the array that `malloc` returned
unfoldable pub child_state :
    (has_initialize has_cleanup : Bool)
    → (enough iterations parallel repetitions : ℕ) → List Value
    → Clock
    → ChildState
child_state has_initialize has_cleanup enough iterations parallel repetitions v clock = record {
  state = warmup;
  has_initialize = has_initialize;
  has_cleanup = has_cleanup;
  enough = enough;
  iterations = iterations;
  parallel = parallel;
  repetitions = repetitions;
  iterations_batch = if ltb 1 parallel then get_n clock else 1;
  need_warmup = true;
  i = 0;
  r = insertinit (record { count = 0; v = v });
  clock = clock;
}

-- the end of `case timing_interval`
unfoldable pub announce : Inputs → ChildState → List Effect → Outcome
announce e s effects =
    if is_cooldown s.state
    then restart e.start_time s.iterations_batch s (effects ++ sends_done ∷ [])
    else restart e.start_time s.iterations s effects

-- what follows a call: nothing where it exits, else the benchmark and the other calls
unfoldable pub follow : Option ℕ → ChildState × List Effect → Outcome → ChildState × List Effect
follow none rest o = (o.s, o.effects)
follow (some n) rest o = (rest.0, o.effects ++ benchmarks n ∷ rest.1)

module _ (f : Doubles) where
  open f use {D, of_ℕ, add, mul, div, lt}

  -- The literal `a / b`, as division rounds it: 0.95 is `literal 95 100`.
  abbrev pub literal : ℕ → ℕ → D
  literal a b = div (of_ℕ a) (of_ℕ b)

  -- the measurement is stored, and the last one ends the experiment
  unfoldable pub record_interval : D → ChildState → ChildState
  record_interval result s =
      if ltb 1 s.parallel || lt (mul (literal 95 100) (of_ℕ s.enough)) result
      then record s {
        r = insertsort f (gettime s.clock) (get_n s.clock) s.r;
        i = s.i + 1;
        state = if leb s.repetitions (s.i + 1) then cooldown else s.state;
      }
      else s

  -- the iterations that the next interval needs
  unfoldable pub rescale : D → ChildState → ChildState
  rescale result s =
      let enough = of_ℕ s.enough in
      let tmp = mul (div (of_ℕ s.iterations) result) (mul (literal 11 10) enough) in
      let shifted = s.iterations * 8 % 2 ^ 64 in
      let hopeless = ltb (2 ^ 27) shifted || (lt result (of_ℕ 0) && ltb (2 ^ 20) shifted) in
      if (s.parallel == 1)
        && (lt result (mul (literal 99 100) enough) || lt (mul (literal 12 10) enough) result)
      then (if lt (of_ℕ 150) result
          then record s { iterations = f.to_u64 (add tmp (of_ℕ 1)) }
          else record s { iterations = shifted; state = if hopeless then cooldown else s.state })
      else s

  -- the `switch`
  unfoldable pub act : Phase → D → Inputs → ChildState → List Effect → Outcome
  act warmup result e s effects = in_warmup e s effects
  act timing_interval result e s effects =
      announce e (rescale result (record_interval result s)) effects
  act cooldown result e s effects = in_cooldown e s effects

-- `t_overhead` and `l_overhead` are what the functions of these names return, which compute it once
-- and keep it; `unset` is what the variable `result` holds before it is assigned.
module _ (f : Doubles) (t_overhead : ℕ) (l_overhead unset : f.D) where
  open f use {D, of_ℕ, add, sub, mul, lt}

  -- the time of the interval, and `settime(result >= 0. ? (uint64)result : 0.)`
  unfoldable pub measure : Inputs → ChildState → D × Clock
  measure e s =
      let stopped = stop e.stop_time s.clock in
      let saved = save_n s.iterations stopped.1 in
      let overhead = add (of_ℕ t_overhead) (mul (of_ℕ (get_n saved)) l_overhead) in
      let result = sub (of_ℕ stopped.0) overhead in
      let usecs = if lt result (of_ℕ 0) then of_ℕ 0 else of_ℕ (f.to_u64 result) in
      if s.need_warmup then (unset, s.clock) else (result, settime (f.to_u64 usecs) saved)

  unfoldable pub benchmp_interval : Inputs → ChildState → Outcome
  benchmp_interval e s =
      let measured = measure e s in
      let s' : ChildState = record s { clock = measured.1 } in
      let effects = if s.need_warmup then [] else cleanup (interval_iterations s.state s) s in
      if e.orphaned && s.has_cleanup
      then record { next = none; s = s'; effects = effects ++ cleans_up 0 ∷ [] }
      else act f s.state measured.0 e s' effects

  -- `while (1) (*benchmark)(benchmp_interval(&_benchmp_child_state), cookie);` over the inputs
  unfoldable pub run : List Inputs → ChildState → ChildState × List Effect
  run [] s = (s, [])
  run (e ∷ es) s = let o = benchmp_interval e s in let rest = run es o.s in follow o.next rest o

  -- `benchmp_child` on a prepared state: a SIGTERM that came before is handled by
  -- `benchmp_child_sigterm`, which cleans up and exits.
  unfoldable pub benchmp_child : Bool → List Inputs → ChildState → ChildState × List Effect
  benchmp_child sigterm_received es s =
      let rest = if sigterm_received then (s, cleanup 0 s) else run es s in
      (rest.0, (if s.has_initialize then initializes 0 ∷ [] else []) ++ rest.1)
