-- ===== src/Harness/Control.antt =====
-- The measuring parent of lmbench3/src/lib_timing.c: `benchmp_parent`. What `select` and `read` say
-- in one round of a loop is a reply, and the bytes that the children write are one list. A
-- `result_t` is read from its bytes by a function that is a parameter, since its layout is the
-- compiler's. A run that is still waiting when the answers are used up has the status `waits`.
pub mod Received
pub mod Protocol
pub mod Followed
use repo_support_tools.Base.{
  ℕ, zero, suc, ◌+◌, ◌-◌, ◌*◌, min, Bool, true, false, List, [], ◌∷◌, ◌++◌, if◌then◌else◌, ltb,
  length, take, drop,
}
use repo_support_tools.Doubles.{Doubles}
use repo_support_tools.Timing.Clock.{Clock}
use repo_support_tools.Timing.Results.{Value, Results, insertinit, sizeof_result}
use repo_support_tools.Timing.Results.Place.{entries}
use repo_support_tools.Timing.Calibration.{set_results}
use repo_support_tools.Harness.Parent.{merge}

-- One round: a signal was received or the pipe has an error, `select` finds nothing, `read`
-- returns -1, or `read` finds so many bytes in the pipe.
pub data Reply : Type 0 where
  interrupted : Reply
  quiet : Reply
  read_fails : Reply
  reads : ℕ → Reply

pub data Move : Type 0 where
  receives : ℕ → Move
  delays : ℕ → Move
  sends_start : ℕ → Move
  asks_results : Move
  sends_exit : ℕ → Move
  -- `kill(pids[i], SIGTERM); waitpid(pids[i], NULL, 0);`
  kills : ℕ → Move
  -- the four pipes
  closes : Move

pub data Status : Type 0 where
  complete : Status
  fails : Status
  waits : Status
  -- the `return` where a `malloc` fails
  lacks_memory : Status

-- what one of the loops leaves: the bytes it has stored, and what it has not used
pub record Collected : Type 0 where
  pub status : Status
  pub buf : List ℕ
  pub answers : List Reply
  pub pipe : List ℕ
  pub actions : List Move

-- `for (; n > 0; n -= bytes_read, buf += bytes_read) { ... bytes_read = read(response, buf, n); ... }`
unfoldable pub receive_all : (n : ℕ) → List Reply → List ℕ → Collected
receive_all zero es pipe = record {
  status = complete;
  buf = [];
  answers = es;
  pipe = pipe;
  actions = [];
}
receive_all (suc n) [] pipe = record {
  status = waits;
  buf = [];
  answers = [];
  pipe = pipe;
  actions = [];
}
receive_all (suc n) (interrupted ∷ es) pipe = record {
  status = fails;
  buf = [];
  answers = es;
  pipe = pipe;
  actions = [];
}
receive_all (suc n) (quiet ∷ es) pipe = receive_all (suc n) es pipe
receive_all (suc n) (read_fails ∷ es) pipe = record {
  status = fails;
  buf = [];
  answers = es;
  pipe = pipe;
  actions = [];
}
receive_all (suc n) (reads k ∷ es) pipe =
    let got = take (min k (suc n)) pipe in
    let rest = receive_all (suc n - length got) es (drop (length got) pipe) in
    record rest { buf = got ++ rest.buf; actions = receives (length got) ∷ rest.actions }

-- what a part of `benchmp_parent` leaves
pub record Stage : Type 0 where
  pub status : Status
  pub answers : List Reply
  pub pipe : List ℕ
  pub actions : List Move
  pub merged : Results

-- the rest of the function where the loop before it has collected everything, else nothing
unfoldable pub continue : Collected → Results → Stage → Stage
continue got merged rest = begun got.status
  where
    stopped : Status → Stage
    stopped status = record {
      status = status;
      answers = got.answers;
      pipe = got.pipe;
      actions = got.actions;
      merged = merged;
    }

    begun : Status → Stage
    begun complete = record rest { actions = got.actions ++ rest.actions }
    begun fails = stopped fails
    begun waits = stopped waits
    begun lacks_memory = stopped lacks_memory

-- `for (i = 0; i < parallel; ++i) { kill(pids[i], SIGTERM); waitpid(pids[i], NULL, 0); }`, from `i`
unfoldable pub kill_from : (i left : ℕ) → List Move
kill_from i zero = []
kill_from i (suc left) = kills i ∷ kill_from (suc i) left

-- `if (warmup > 0) { ... select(0, NULL, NULL, NULL, &delay); }`
abbrev pub delay : (warmup : ℕ) → List Move
delay warmup = if ltb 0 warmup then delays warmup ∷ [] else []

-- what `benchmp_parent` leaves
pub record Ended : Type 0 where
  pub status : Status
  pub actions : List Move
  pub clock : Clock

module _ (f : Doubles) (to_results : List ℕ → Results) (parallel : ℕ) (repetitions : ℕ) where
  -- The `for` over the children: each is told to report, and what it sends is merged.
  unfoldable pub ask_children : (left : ℕ) → List Reply → List ℕ → Results → Stage
  ask_children zero es pipe merged = record {
    status = complete;
    answers = es;
    pipe = pipe;
    actions = [];
    merged = merged;
  }
  ask_children (suc left) es pipe merged =
      let got = receive_all (sizeof_result repetitions) es pipe in
      let merged' = merge f (entries (to_results got.buf)) merged in
      let rest = ask_children left got.answers got.pipe merged' in
      let next = continue got merged rest in record next { actions = asks_results ∷ next.actions }

  -- from the 'start' signal to the results
  unfoldable pub run_children : List Reply → List ℕ → Results → Stage
  run_children es pipe merged =
      let done = receive_all parallel es pipe in
      let rest = ask_children parallel done.answers done.pipe (insertinit merged) in
      let next = continue done merged rest in
      record next { actions = sends_start parallel ∷ next.actions }

  -- from the 'ready' signals to the results
  unfoldable pub gather_results : (warmup : ℕ) → List Reply → List ℕ → Results → Stage
  gather_results warmup es pipe merged =
      let ready = receive_all parallel es pipe in
      let rest = run_children ready.answers ready.pipe merged in
      continue ready merged (record rest { actions = delay warmup ++ rest.actions })

  -- the end: `exit` signals and the median time, or `error_exit`
  unfoldable pub finish : Stage → Clock → Ended
  finish s clock = by s.status
    where
      by : Status → Ended
      by complete = record {
        status = complete;
        actions = s.actions ++ sends_exit parallel ∷ closes ∷ [];
        clock = set_results s.merged clock;
      }
      by fails = record {
        status = fails;
        actions = s.actions ++ kill_from 0 parallel ++ closes ∷ [];
        clock = clock;
      }
      by waits = record { status = waits; actions = s.actions; clock = clock }
      by lacks_memory = record { status = lacks_memory; actions = s.actions; clock = clock }

  -- `signalled`: a signal was received before the call. `allocated`: no `malloc` fails, and `v` is
  -- the array in `merged_results`.
  unfoldable pub benchmp_parent :
      (signalled allocated : Bool) (warmup : ℕ) → List Reply → List ℕ → List Value → Clock → Ended
  benchmp_parent signalled allocated warmup es pipe v clock =
      let merged : Results = record { count = 0; v = v } in
      let failed : Stage = record {
        status = fails;
        answers = es;
        pipe = pipe;
        actions = [];
        merged = merged;
      } in
      if signalled
      then finish failed clock
      else if allocated
      then finish (gather_results warmup es pipe merged) clock
      else record { status = lacks_memory; actions = []; clock = clock }
