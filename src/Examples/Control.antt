-- ===== src/Examples/Control.antt =====
-- Two children and their parent in lmbench3/src/lib_timing.c's harness.
use mathlib.Core.Path.{subst}
use repo_support_tools.Base.{
  ℕ, zero, suc, ◌+◌, ◌*◌, ◌≤◌, ◌≡◌, ◌++◌, true, false, some, List, [], ◌∷◌, map, get_or, replicate,
  All, refl, sym, ap, arith,
}
use repo_support_tools.Timing.Clock.{Clock, gettime, get_n, zero_tv}
use repo_support_tools.Timing.Results.{Value, Results, insertinit, blank, sizeof_result}
use repo_support_tools.Timing.Calibration.{set_results}
use repo_support_tools.Harness.Parent.{gather}
use repo_support_tools.Harness.Control.{Reply, interrupted, quiet, reads, complete, benchmp_parent}
use repo_support_tools.Harness.Control.Received.{IsPrompt, arrivals, concat, benchmp_parent-merges}
use repo_support_tools.Harness.Control.Protocol.{Point, readying, follows, IsEnd}
use repo_support_tools.Harness.Control.Followed.{benchmp_parent-IsEnd}
use repo_support_tools.Harness.Launch.{Fork, forked, refused, System, launch, benchmp}
use repo_support_tools.Harness.Launch.Settled.{Settles, launch-Settles, benchmp-failed}
use repo_support_tools.Examples.Fractions.{fractions}

abbrev idle : Clock
idle = record { start_tv = zero_tv; stop_tv = zero_tv; iterations = 1 }

-- a report of one measurement, whose time and count are the first two bytes
abbrev report : ℕ → ℕ → List ℕ
report u n = u ∷ n ∷ replicate 182 0

abbrev read_report : List ℕ → Results
read_report bytes = record {
  count = 1;
  v = record { u = get_or bytes 0 0; n = get_or bytes 1 0 } ∷ [];
}

abbrev reports : List (List ℕ)
reports = report 90 3 ∷ report 80 4 ∷ []

-- a round in which nothing comes, and many in which up to 50 bytes are there
abbrev replies : List Reply
replies = quiet ∷ replicate 372 (reads 50)

abbrev slots : List Value
slots = blank ∷ blank ∷ blank ∷ []

replicate-IsPrompt : (n : ℕ) → All IsPrompt (replicate n (reads 50))
replicate-IsPrompt zero = tt
replicate-IsPrompt (suc n) = (tt, replicate-IsPrompt n)

arrivals-replicate : (n : ℕ) → arrivals (replicate n (reads 50)) ≡ n
arrivals-replicate zero = refl
arrivals-replicate (suc n) = ap suc (arrivals-replicate n)

enough_rounds : 2 + 2 + 2 * sizeof_result 11 ≤ arrivals replies
unfolding sizeof_result
enough_rounds = subst (λ n. 2 + 2 + 2 * 184 ≤ n) (sym (arrivals-replicate 372)) (omega arith)

benchmp_parent-merges_example :
    (benchmp_parent fractions read_report 2 11 false true 0 replies
        ((1 ∷ 1 ∷ []) ++ ((2 ∷ 2 ∷ []) ++ concat reports))
        slots
        idle).status
      ≡ complete
    × (benchmp_parent fractions read_report 2 11 false true 0 replies
        ((1 ∷ 1 ∷ []) ++ ((2 ∷ 2 ∷ []) ++ concat reports))
        slots
        idle).clock
      ≡ set_results
          (gather fractions
            (map read_report reports)
            (insertinit (record { count = 0; v = slots })))
          idle
unfolding sizeof_result
benchmp_parent-merges_example =
    benchmp_parent-merges fractions read_report 2 11 0 (1 ∷ 1 ∷ []) (2 ∷ 2 ∷ []) reports replies
      slots idle refl refl refl (refl, (refl, tt)) (tt, replicate-IsPrompt 372) enough_rounds

-- a signal comes after the first byte
benchmp_parent-IsEnd_example :
    (q : Point) × (follows 2
        (sizeof_result 11)
        (benchmp_parent fractions read_report 2 11 false true 100
          (reads 1 ∷ interrupted ∷ [])
          (1 ∷ 1 ∷ [])
          slots
          idle).actions
        (some (readying 2))
      ≡ some q)
    × IsEnd 2
        (sizeof_result 11)
        (benchmp_parent fractions read_report 2 11 false true 100
          (reads 1 ∷ interrupted ∷ [])
          (1 ∷ 1 ∷ [])
          slots
          idle).status
        q
benchmp_parent-IsEnd_example =
    benchmp_parent-IsEnd fractions read_report 2 11 false true 100 (reads 1 ∷ interrupted ∷ [])
      (1 ∷ 1 ∷ []) slots idle (omega arith)

-- the third child cannot be created
abbrev two_forks : ℕ → Fork
two_forks zero = forked
two_forks (suc zero) = forked
two_forks (suc (suc i)) = refused

abbrev crowded : System
crowded = record {
  pipes_made = true;
  pids_allocated = true;
  forks = two_forks;
  signalled = false;
  allocated = true;
  answers = [];
  pipe = [];
  v = slots;
  slow = λ i. false;
}

launch-Settles_example :
    Settles fractions read_report 3 11 idle
      (launch fractions read_report 0 11 5000 3 7 crowded idle)
launch-Settles_example = launch-Settles fractions read_report 3 11 0 5000 7 crowded idle

abbrev no_pipes : System
no_pipes = record crowded { pipes_made = false }

benchmp-failed_example :
    (gettime (benchmp fractions read_report 0 11 5000 0 1 crowded no_pipes idle).clock ≡ 0)
    × (get_n (benchmp fractions read_report 0 11 5000 0 1 crowded no_pipes idle).clock ≡ 1)
unfolding launch benchmp
benchmp-failed_example =
    benchmp-failed fractions read_report 0 11 5000 0 1 crowded no_pipes idle refl
