-- ===== src/LatCtx/Schedule.antt =====
-- The ring of lat_ctx.c of lmbench3/src under any schedule of its processes.
use mathlib.Core.Path.{subst}
use repo_support_tools.Base.{
  ℕ, suc, ◌+◌, ◌*◌, ◌<◌, ◌≡◌, ◌≢◌, inl, inr, Option, none, some, List, [], ◌∷◌, refl, sym, arith,
}
use repo_support_tools.LatCtx.{Ring, turn, after, run_ring, initial}
use repo_support_tools.LatCtx.Token.{Place, home, IsAt, IsIn, mover, next_place, work}
use repo_support_tools.LatCtx.Turns.{turn-blocks, turn_case}

abbrev made : Option Ring → ℕ
made none = 0
made (some t) = 1

-- the calls of a schedule that do not block
unfoldable pub calls : (procs : ℕ) → List ℕ → Ring → ℕ
calls procs [] s = 0
calls procs (i ∷ is) s = made (turn procs i s) + calls procs is (after s (turn procs i s))

module _ (procs : ℕ) where
  -- the token is at one place, only the process whose turn it is does not block, and the calls that
  -- were made and those that are left are `total`
  abbrev pub OneToken : (total made : ℕ) → Ring → Type 0
  OneToken total made s =
      (p : Place) × IsIn procs p
      × IsAt p s
      × (made + work procs p s ≡ total)
      × ((j : ℕ) → j ≢ mover procs p → turn procs j s ≡ none)

  one_more : (total made : ℕ) (s : Ring) → OneToken total made s → OneToken (suc total) (suc made) s
  one_more total made s (p, inside, at, count, only) = (p, inside, at, omega arith, only)

  blocked_turn :
      (total i : ℕ) (is : List ℕ) (s : Ring)
      → turn procs i s ≡ none
      → OneToken total (calls procs is s) (run_ring procs is s)
      → OneToken total (calls procs (i ∷ is) s) (run_ring procs (i ∷ is) s)
  unfolding run_ring calls
  blocked_turn total i is s e h =
      subst
        (λ o. OneToken total (made o + calls procs is (after s o)) (run_ring procs is (after s o)))
        (sym e) (subst (λ n. OneToken total n (run_ring procs is s)) (added (calls procs is s)) h)
    where
      added : (n : ℕ) → n ≡ 0 + n
      added n = omega arith

  made_turn :
      (total i : ℕ) (is : List ℕ) (s t : Ring)
      → turn procs i s ≡ some t
      → OneToken total (calls procs is t) (run_ring procs is t)
      → OneToken (suc total) (calls procs (i ∷ is) s) (run_ring procs (i ∷ is) s)
  unfolding run_ring calls
  made_turn total i is s t e h =
      subst
        (λ o.
          OneToken (suc total) (made o + calls procs is (after s o))
            (run_ring procs is (after s o)))
        (sym e)
        (subst (λ n. OneToken (suc total) n (run_ring procs is t)) (added (calls procs is t))
          (one_more total (calls procs is t) (run_ring procs is t) h))
    where
      added : (n : ℕ) → suc n ≡ 1 + n
      added n = omega arith

  run_from-OneToken :
      (is : List ℕ) (p : Place) (s : Ring)
      → 0 < procs
      → IsIn procs p
      → IsAt p s
      → OneToken (work procs p s) (calls procs is s) (run_ring procs is s)
  unfolding run_ring calls
  run_from-OneToken [] p s pos inside h =
      (p, inside, h, omega arith, turn-blocks procs p s inside h)
  run_from-OneToken (i ∷ is) p s pos inside h = elim (turn_case procs p s i pos inside h) [
    | inl none' ↦ blocked_turn (work procs p s) i is s none' (run_from-OneToken is p s pos inside h)
    | inr m ↦
        let q = next_place procs p in
        subst (λ n. OneToken n (calls procs (i ∷ is) s) (run_ring procs (i ∷ is) s)) m.2.counted
          (made_turn (work procs q m.0) i is s m.0 m.1
            (run_from-OneToken is q m.0 pos m.2.inside m.2.place))
  ]

  initial-IsAt : (iterations : ℕ) → IsAt home (initial iterations)
  initial-IsAt iterations = record { pipes = λ j. refl; holds = λ j. refl; waits = refl }

  -- In whatever order the processes of the ring get their turns, there is at most one token, every
  -- process but the one whose turn it is blocks, and an iteration takes two calls for each process:
  -- the calls that were made and those that are left are `2 * procs` for each iteration.
  pub run_ring-OneToken :
      (iterations : ℕ) (schedule : List ℕ)
      → 0 < procs
      → OneToken
          (iterations * (2 * procs))
          (calls procs schedule (initial iterations))
          (run_ring procs schedule (initial iterations))
  run_ring-OneToken iterations schedule pos =
      let total : work procs home (initial iterations) ≡ iterations * (2 * procs) = omega arith in
      subst
        (λ n.
          OneToken n (calls procs schedule (initial iterations))
            (run_ring procs schedule (initial iterations)))
        total
        (run_from-OneToken schedule home (initial iterations) pos tt (initial-IsAt iterations))
