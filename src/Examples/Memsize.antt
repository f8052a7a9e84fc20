-- ===== src/Examples/Memsize.antt =====
-- memsize.c of lmbench3/src on a host with a limit of 3,000,000 bytes.
use repo_support_tools.Base.{
  ℕ, ◌+◌, ◌*◌, ◌/◌, ◌^◌, ◌≤◌, ◌<◌, ◌≡◌, ◌⊎◌, Bool, true, false, some, [], ◌∷◌, leb, refl, arith,
}
use repo_support_tools.Memsize.{Host, mb, test_malloc, found_size, timeit, touch_range, touch_loop}
use repo_support_tools.Memsize.Found.{HasLimit, found_size-nearest}
use repo_support_tools.Memsize.Timed.{IsTested, timeit-IsTested}

abbrev limit : ℕ
limit = 3000000

abbrev host : Host
host = record { allocates = λ n. leb n limit; pipes = true; delivers = true }

host-HasLimit : HasLimit host limit
unfolding test_malloc
host-HasLimit n = refl

found_size-nearest_example :
    (s : ℕ) × (found_size host (some (2 ^ 3)) ≡ some s)
    × (s ≤ limit)
    × ((s ≡ 2 ^ 3 * mb) ⊎ (limit < s + mb))
found_size-nearest_example =
    found_size-nearest host limit 3 host-HasLimit (omega arith) (omega arith)

-- from 4 MB on the memory is slow
abbrev times : ℕ → ℕ × Bool
times range = (1000, leb (4 * mb) range)

timeit-IsTested_example :
    (s : ℕ) × (timeit 4096 times (5 * mb) ≡ some (s / mb)) × IsTested 4096 times (5 * mb) s
timeit-IsTested_example = timeit-IsTested 4096 times (5 * mb) (omega arith)

touch_range_up : touch_range true 10 4 9 ≡ 0 ∷ 4 ∷ []
unfolding touch_range touch_loop
touch_range_up = refl

touch_range_down : touch_range false 10 4 9 ≡ 9 ∷ 5 ∷ []
unfolding touch_range touch_loop
touch_range_down = refl
