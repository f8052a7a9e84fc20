-- ===== src/Harness/Launch.antt =====
-- `benchmp` of lmbench3/src/lib_timing.c: the children that it creates, its parent's part
-- (`benchmp_parent`) and the end of the children. Signal dispositions are left out.
pub mod Counts
pub mod Kills
pub mod Settled
use repo_support_tools.Base.{
  ℕ, zero, suc, ◌+◌, ◌*◌, ◌/◌, ◌%◌, ◌^◌, Bool, true, false, ◌&&◌, ◌||◌, List, [], ◌∷◌, ◌++◌,
  if◌then◌else◌, ltb, ◌==◌,
}
use repo_support_tools.Doubles.{Doubles}
use repo_support_tools.Timing.Clock.{Clock, settime, gettime, save_n, get_n}
use repo_support_tools.Timing.Results.{Value, Results}
use repo_support_tools.Timing.Calibration.{short, get_enough}
use repo_support_tools.Harness.Control.{
  Reply, Move, Status, complete, fails, waits, lacks_memory, Ended, benchmp_parent,
}

-- what happens when a child is to be created: a SIGTERM came before, `fork` fails, or it returns
pub data Fork : Type 0 where
  terminated : Fork
  refused : Fork
  forked : Fork

-- What `benchmp` does. `creates i n` is the child `i` with the given iterations.
pub data Step : Type 0 where
  creates : ℕ → ℕ → Step
  parents : Move → Step
  -- `kill(pids[i], SIGTERM); waitpid(pids[i], NULL, 0);`
  kills : ℕ → Step
  -- `alarm(seconds)` and `waitpid`
  awaits : (i seconds : ℕ) → Step
  -- `benchmp_sigalrm`
  terminates : ℕ → Step

-- what the system does in one call
pub record System : Type 0 where
  pub pipes_made : Bool
  pub pids_allocated : Bool
  pub forks : ℕ → Fork
  -- what `benchmp_parent` gets
  pub signalled : Bool
  pub allocated : Bool
  pub answers : List Reply
  pub pipe : List ℕ
  pub v : List Value
  -- the children that do not end in time by themselves
  pub slow : ℕ → Bool

abbrev pub is_waiting : Status → Bool
is_waiting complete = false
is_waiting fails = false
is_waiting waits = true
is_waiting lacks_memory = false

-- what a call leaves
pub record Launched : Type 0 where
  pub status : Status
  pub steps : List Step
  pub clock : Clock

-- `error_exit`: `while (--i >= 0) { kill(pids[i], SIGTERM); waitpid(pids[i], NULL, 0); }`
unfoldable pub kill_children : (i : ℕ) → List Step
kill_children zero = []
kill_children (suc i) = kills i ∷ kill_children i

-- `while (i-- > 0) { ... alarm(benchmp_sigalrm_timeout); waitpid(pids[i], NULL, 0); ... }`
unfoldable pub await_children : (slow : ℕ → Bool) (i seconds : ℕ) → List Step
await_children slow zero seconds = []
await_children slow (suc i) seconds =
    awaits i seconds
    ∷ (if slow i then terminates i ∷ await_children slow i 1 else await_children slow i seconds)

-- the first value of `benchmp_sigalrm_timeout`
unfoldable pub exit_timeout : (enough : ℕ) → ℕ
exit_timeout enough = let timeout = 2 * enough / 1000000 + 2 in if ltb timeout 5 then 5 else timeout

abbrev pub from_parent : List Move → List Step
from_parent [] = []
from_parent (a ∷ as') = parents a ∷ from_parent as'

-- the `for` over the forks, from child `i`: whether all of the `left` children are created
unfoldable pub fork_children : (forks : ℕ → Fork) (iterations : ℕ) (i left : ℕ) → Bool × List Step
fork_children forks iterations i zero = (true, [])
fork_children forks iterations i (suc left) =
    let rest = fork_children forks iterations (suc i) left in by (forks i) rest
  where
    by : Fork → Bool × List Step → Bool × List Step
    by terminated rest = (false, kill_children i)
    by refused rest = (false, kill_children i)
    by forked rest = (rest.0, creates i iterations ∷ rest.1)

-- `settime(0); save_n(1);`
abbrev pub reset : Clock → Clock
reset clock = save_n 1 (settime 0 clock)

module _ (f : Doubles) (to_results : List ℕ → Results) (warmup repetitions : ℕ) where
  open f use {of_ℕ, div, mul}

  -- after the fork loop: `benchmp_parent` and `cleanup_exit`
  unfoldable pub attend : (enough parallel : ℕ) → System → Clock → List Step → Launched
  attend enough parallel sys clock created =
      let p =
        benchmp_parent f to_results parallel repetitions sys.signalled sys.allocated warmup
          sys.answers sys.pipe sys.v clock in
      ended p p.status
    where
      awaited : Ended → List Step
      awaited p =
          created ++ from_parent p.actions ++ await_children sys.slow parallel (exit_timeout enough)

      ended : Ended → Status → Launched
      ended p complete = record { status = complete; steps = awaited p; clock = p.clock }
      ended p fails = record { status = fails; steps = awaited p; clock = p.clock }
      ended p waits = record {
        status = waits;
        steps = created ++ from_parent p.actions;
        clock = p.clock;
      }
      ended p lacks_memory = record { status = lacks_memory; steps = awaited p; clock = p.clock }

  -- from `pipe` on
  unfoldable pub launch : (enough parallel iterations : ℕ) → System → Clock → Launched
  launch enough parallel iterations sys clock =
      let forks = fork_children sys.forks iterations 0 parallel in
      if sys.pipes_made && sys.pids_allocated
      then (if forks.0
          then attend enough parallel sys clock forks.1
          else record { status = fails; steps = forks.1; clock = clock })
      else record { status = fails; steps = []; clock = clock }

  -- the iterations of a parallel run, from the baseline that the clock holds
  unfoldable pub parallel_iterations : (enough : ℕ) → Clock → ℕ
  parallel_iterations enough clock =
      if ltb enough short
      then (f.to_u64 (div (mul (of_ℕ short) (of_ℕ (get_n clock))) (of_ℕ (gettime clock))) + 1)
        % 2 ^ 64
      else get_n clock

  -- `benchmp`. `base` is what the system does in the call for the baseline, which is for one child
  -- and so makes no other; `long_enough` is what `compute_enough` has found.
  unfoldable pub benchmp : (long_enough enough parallel : ℕ) (base sys : System) → Clock → Launched
  benchmp long_enough enough parallel base sys clock =
      let enough' = get_enough long_enough enough in
      let again = get_enough long_enough enough' in
      let b = launch again 1 1 base (reset (reset clock)) in
      let p = launch enough' parallel (parallel_iterations enough' b.clock) sys (reset b.clock) in
      if ltb 1 parallel
      then (if is_waiting b.status || gettime b.clock == 0
          then b
          else record p { steps = b.steps ++ p.steps })
      else launch enough' parallel 1 sys (reset clock)
