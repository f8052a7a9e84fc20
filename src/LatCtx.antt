-- ===== src/LatCtx.antt =====
-- lat_ctx.c of lmbench3/src, which passes a token around a ring of processes. The processes run in
-- any order: a schedule names the process that gets its turn, and a process whose `read` finds
-- nothing stays where it is. The state is that after `initialize`, without failed calls.
pub mod Token
pub mod Turns
pub mod Schedule
pub mod Processes
use repo_support_tools.Base.{
  ℕ, zero, suc, ◌+◌, ◌-◌, ◌*◌, ◌/◌, ◌%◌, Bool, true, false, ◌&&◌, ◌||◌, not, Option, none, some,
  List, [], ◌∷◌, if◌then◌else◌, ltb, leb, ◌==◌,
}
use repo_support_tools.Doubles.{Doubles}

-- `pipes i` is the number of messages in the pipe `p[i]`. `holds i`: the process `i` is between its
-- `read` and its `write`. The process 0 runs `benchmark`: `waits`, where it is between its `write`
-- and its `read`, and `left`, the iterations that it has not begun.
pub record Ring : Type 0 where
  pub pipes : ℕ → ℕ
  pub holds : ℕ → Bool
  pub waits : Bool
  pub left : ℕ

-- `write(p[i][1], &msg, sizeof(msg))` and `read(p[i][0], &msg, sizeof(msg))`
abbrev pub put : ℕ → (ℕ → ℕ) → ℕ → ℕ
put i pipes j = if j == i then pipes j + 1 else pipes j

abbrev pub get : ℕ → (ℕ → ℕ) → ℕ → ℕ
get i pipes j = if j == i then pipes j - 1 else pipes j

abbrev pub update : ℕ → Bool → (ℕ → Bool) → ℕ → Bool
update i b holds j = if j == i then b else holds j

-- one call of the process 0, in `benchmark`: none where it blocks or has ended
unfoldable pub turn_parent : (procs : ℕ) → Ring → Option Ring
turn_parent procs s =
    if s.waits
    then (if s.pipes (procs - 1) == 0
        then none
        else some (record s { pipes = get (procs - 1) s.pipes; waits = false }))
    else if s.left == 0
    then none
    else some (record s { pipes = put 0 s.pipes; waits = true; left = s.left - 1 })

-- one call of the process `i`, from 1 on, in `doit`
unfoldable pub turn_child : (i : ℕ) → Ring → Option Ring
turn_child i s =
    if s.holds i
    then some (record s { pipes = put i s.pipes; holds = update i false s.holds })
    else if s.pipes (i - 1) == 0
    then none
    else some (record s { pipes = get (i - 1) s.pipes; holds = update i true s.holds })

unfoldable pub turn : (procs i : ℕ) → Ring → Option Ring
turn procs zero s = turn_parent procs s
turn procs (suc i) s = if ltb (suc i) procs then turn_child (suc i) s else none

-- a process that blocks changes nothing
abbrev pub after : Ring → Option Ring → Ring
after s none = s
after s (some t) = t

-- the turns of a schedule
unfoldable pub run_ring : (procs : ℕ) → List ℕ → Ring → Ring
run_ring procs [] s = s
run_ring procs (i ∷ is) s = run_ring procs is (after s (turn procs i s))

-- the ring after `initialize`: the pipes are empty, and the children wait
abbrev pub initial : (iterations : ℕ) → Ring
initial iterations = record { pipes = λ i. 0; holds = λ i. false; waits = false; left = iterations }
