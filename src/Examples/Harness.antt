-- ===== src/Examples/Harness.antt =====
-- A child of lmbench3/src/lib_timing.c's harness that takes two measurements beside another child.
use repo_support_tools.Base.{ℕ, ◌+◌, ◌<◌, ◌≡◌, ◌++◌, true, false, List, [], ◌∷◌, refl, arith}
use repo_support_tools.Base.Int.{pos}
use repo_support_tools.Timing.Clock.{Clock, zero_tv}
use repo_support_tools.Timing.Results.{Value, Results, blank, insertinit}
use repo_support_tools.Harness.{
  Inputs, ChildState, timing_interval, cooldown, child_state, benchmp_child, run,
}
use mathlib.Core.List.{Perm}
use repo_support_tools.Timing.Results.Order
use repo_support_tools.Timing.Results.Place.{entries}
use repo_support_tools.Harness.Parent.{gather, all_entries, gather-perm}
use repo_support_tools.Harness.Child.{IsReady, benchmp_child-IsReady}
use repo_support_tools.Harness.Messages.{
  Message, ready, done, results, messages, benchmp_child-messages,
}
use repo_support_tools.Harness.Progress.{run-ends}
use repo_support_tools.Examples.Fractions.{fractions, fractions-IsOrdered}

abbrev two_children : ℕ
two_children = 2

abbrev clock : Clock
clock = record { start_tv = zero_tv; stop_tv = zero_tv; iterations = 1 }

-- three slots for two measurements
abbrev slots : List Value
slots = blank ∷ blank ∷ blank ∷ []

abbrev no_time : fractions.D
no_time = (0, 1)

abbrev second : ℕ → Inputs
second n = record {
  stop_time = record { sec = pos (n + 1); usec = pos 0 };
  start_time = record { sec = pos n; usec = pos 0 };
  orphaned = false;
  start_signalled = true;
  result_signalled = true;
}

abbrev inputs : List Inputs
inputs = second 0 ∷ second 1 ∷ second 2 ∷ second 3 ∷ []

abbrev started : ChildState
started = record (child_state true true 5000 100 two_children 2 slots clock) {
  state = timing_interval;
  need_warmup = false;
}

benchmp_child-IsReady_example :
    IsReady fractions
      (benchmp_child fractions 0 no_time no_time false inputs
        (child_state true true 5000 100 two_children 2 slots clock)).0
benchmp_child-IsReady_example =
    benchmp_child-IsReady fractions fractions-IsOrdered 0 no_time no_time false inputs true true
      5000 100 two_children 2 slots clock (omega arith) (omega arith)

benchmp_child-messages_example :
    (rest : List Message) × messages
          (benchmp_child fractions 0 no_time no_time false inputs
            (child_state true true 5000 100 two_children 2 slots clock)).1
        ++ rest
      ≡ ready ∷ done ∷ results ∷ []
unfolding child_state
benchmp_child-messages_example =
    benchmp_child-messages fractions 0 no_time no_time inputs
      (child_state true true 5000 100 two_children 2 slots clock) refl refl

run-ends_example :
    (run fractions 0 no_time no_time (second 0 ∷ second 1 ∷ []) started).0.state ≡ cooldown
    × (run fractions 0 no_time no_time (second 0 ∷ second 1 ∷ []) started).0.i ≡ started.repetitions
    × (run fractions 0 no_time no_time (second 0 ∷ second 1 ∷ []) started).0.iterations
      ≡ started.iterations
unfolding child_state
run-ends_example =
    run-ends fractions 0 no_time no_time (second 0 ∷ second 1 ∷ []) started (refl, (refl, tt)) refl
      (omega arith) (omega arith) (omega arith)

abbrev sent : ℕ → Results
sent u = record { count = 1; v = record { u = u; n = 1 } ∷ blank ∷ [] }

sent-IsValid : (u : ℕ) → 0 < u → Order.IsValid fractions (sent u)
sent-IsValid u h = record { room = omega arith; positive = (h, tt); descending = (tt, tt) }

gather-perm_example :
    Order.IsValid fractions
      (gather fractions (sent 5 ∷ sent 7 ∷ []) (insertinit (record { count = 0; v = slots })))
    × Perm
        (entries
          (gather fractions (sent 5 ∷ sent 7 ∷ []) (insertinit (record { count = 0; v = slots }))))
        (all_entries fractions (sent 5 ∷ sent 7 ∷ []))
gather-perm_example =
    gather-perm fractions fractions-IsOrdered (sent 5 ∷ sent 7 ∷ []) slots
      (sent-IsValid 5 (omega arith), (sent-IsValid 7 (omega arith), tt)) (omega arith)
