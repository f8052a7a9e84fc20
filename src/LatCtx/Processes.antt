-- ===== src/LatCtx/Processes.antt =====
-- The pipes and the processes that lat_ctx.c of lmbench3/src makes, and the time that it prints.
use repo_support_tools.Base.{
  ℕ, zero, suc, ◌+◌, ◌≡◌, Bool, Option, none, some, List, [], ◌∷◌, length, replicate, if◌then◌else◌,
  ◌==◌, refl, ap, ◌∙◌, arith,
}
use repo_support_tools.Doubles.{Doubles}

-- `create_pipes` from the pipe `i` on: how many there are. `made i`: `pipe(p[i])` does not fail.
unfoldable pub create_pipes : (made : ℕ → Bool) (i left : ℕ) → ℕ
create_pipes made i zero = i
create_pipes made i (suc left) =
    let rest = create_pipes made (suc i) left in if made i then rest else i

-- The `for` of `create_daemons` from the process `i` on: what it returns, and `pids` from there,
-- none for an entry that is 0 or -1. `forks i` is what `fork` gives for the process `i`.
unfoldable pub create_daemons : (forks : ℕ → Option ℕ) (i left : ℕ) → ℕ × List (Option ℕ)
create_daemons forks i zero = (i, [])
create_daemons forks i (suc left) = by (forks i) (create_daemons forks (suc i) left)
  where
    by : Option ℕ → ℕ × List (Option ℕ) → ℕ × List (Option ℕ)
    by none rest = (i, replicate (suc left) none)
    by (some pid) rest = (rest.0, some pid ∷ rest.1)

-- the processes that the `for` of `cleanup` kills
unfoldable pub killed_pids : List (Option ℕ) → List ℕ
killed_pids [] = []
killed_pids (none ∷ pids) = killed_pids pids
killed_pids (some pid ∷ pids) = pid ∷ killed_pids pids

-- the pipes that `benchmark_overhead` writes and reads, in order
unfoldable pub overhead_pipes : (procs iterations i : ℕ) → List ℕ
overhead_pipes procs zero i = []
overhead_pipes procs (suc iterations) i =
    i ∷ overhead_pipes procs iterations (if suc i == procs then 0 else suc i)

module _ (f : Doubles) where
  open f use {D, of_ℕ, div, sub, lt}

  -- What `main` prints for `procs` processes, if it is more than 0: the time and the count that the
  -- harness reports, for each process, less the overhead.
  unfoldable pub switch_time : (time n procs : ℕ) (overhead : D) → Option D
  switch_time time n procs overhead =
      let each = sub (div (div (of_ℕ time) (of_ℕ n)) (of_ℕ procs)) overhead in
      if lt (of_ℕ 0) each then some each else none

-- the processes up to the first `fork` that fails
abbrev started : (forks : ℕ → Option ℕ) (i left : ℕ) → List ℕ
started forks i zero = []
started forks i (suc left) = by (forks i) (started forks (suc i) left)
  where
    by : Option ℕ → List ℕ → List ℕ
    by none rest = []
    by (some pid) rest = pid ∷ rest

killed_pids-replicate : (n : ℕ) → killed_pids (replicate n none) ≡ []
unfolding killed_pids
killed_pids-replicate zero = refl
killed_pids-replicate (suc n) = killed_pids-replicate n

-- Where `create_daemons` cannot create all processes, `cleanup` kills just those that there are, and
-- `create_daemons` returns how many there are, with the process that calls it.
pub create_daemons-killed :
    (forks : ℕ → Option ℕ) (i left : ℕ)
    → (killed_pids (create_daemons forks i left).1 ≡ started forks i left)
      × ((create_daemons forks i left).0 ≡ i + length (started forks i left))
unfolding create_daemons killed_pids
create_daemons-killed forks i zero = (refl, omega arith)
create_daemons-killed forks i (suc left) =
    by (forks i) refl (create_daemons-killed forks (suc i) left)
  where
    by :
        (o : Option ℕ)
        → forks i ≡ o
        → (killed_pids (create_daemons forks (suc i) left).1 ≡ started forks (suc i) left)
          × ((create_daemons forks (suc i) left).0 ≡ suc i + length (started forks (suc i) left))
        → (killed_pids (create_daemons forks i (suc left)).1 ≡ started forks i (suc left))
          × ((create_daemons forks i (suc left)).0 ≡ i + length (started forks i (suc left)))
    by none e rest = rw (e) (killed_pids-replicate left, omega arith)
    by (some pid) e rest = rw (e) (ap (λ l. pid ∷ l) rest.0, rest.1 ∙ omega arith)
