-- ===== src/Examples/LatCtx.antt =====
-- The ring of lat_ctx.c of lmbench3/src with three processes.
use repo_support_tools.Base.{ℕ, ◌*◌, ◌≡◌, List, [], ◌∷◌, refl, arith}
use repo_support_tools.LatCtx.{turn, turn_parent, turn_child, run_ring, initial}
use repo_support_tools.LatCtx.Schedule.{calls, OneToken, run_ring-OneToken}
use repo_support_tools.LatCtx.Processes.{overhead_pipes}

-- the processes get their turns out of order
abbrev schedule : List ℕ
schedule = 2 ∷ 0 ∷ 0 ∷ 2 ∷ 1 ∷ 1 ∷ 2 ∷ 1 ∷ 2 ∷ 0 ∷ []

run_ring-OneToken_example :
    OneToken 3 (5 * (2 * 3)) (calls 3 schedule (initial 5)) (run_ring 3 schedule (initial 5))
run_ring-OneToken_example = run_ring-OneToken 3 5 schedule (omega arith)

-- once around the ring
six_calls : calls 3 schedule (initial 5) ≡ 6
unfolding calls turn turn_parent turn_child
six_calls = refl

three_pipes : overhead_pipes 3 5 0 ≡ 0 ∷ 1 ∷ 2 ∷ 0 ∷ 1 ∷ []
unfolding overhead_pipes
three_pipes = refl
