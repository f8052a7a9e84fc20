-- ===== src/Memsize.antt =====
-- memsize.c of lmbench3/src, which finds how much memory can be used: `main`, `test_malloc`,
-- `timeit` and `touchRange`. What `malloc`, `pipe` and the clock give are arguments.
pub mod Found
pub mod Timed
use repo_support_tools.Base.{
  ℕ, zero, suc, ◌+◌, ◌-◌, ◌*◌, ◌/◌, ◌%◌, ◌^◌, Bool, ◌&&◌, ◌||◌, Option, none, some, List, [], ◌∷◌,
  if◌then◌else◌, ltb, leb, ◌==◌,
}

-- the number of bytes in 1 MB
abbrev pub mb : ℕ
mb = 1048576

-- `allocates n`: `malloc(n)` returns memory. `pipes`: `pipe` gives a pipe; `delivers`: the child is
-- created and its answer comes whole.
pub record Host : Type 0 where
  pub allocates : ℕ → Bool
  pub pipes : Bool
  pub delivers : Bool

unfoldable pub test_malloc : Host → ℕ → Bool
test_malloc host size =
    if host.pipes then host.delivers && host.allocates size else host.allocates size

-- `for (where = 0; !test_malloc(size); size >>= 1) max = size;`: the size and `max`
unfoldable pub halve : Host → (fuel size max : ℕ) → Option (ℕ × ℕ)
halve host zero size max = none
halve host (suc fuel) size max =
    let rest = halve host fuel (size / 2) size in
    if test_malloc host size then some (size, max) else rest

-- one round of the `for` over `delta`, which is in MB
unfoldable pub step_up : Host → (max delta size : ℕ) → ℕ
step_up host max delta size =
    let sz = (size + delta * mb) % 2 ^ 64 in
    if ltb max sz then size else if test_malloc host sz then sz else size

unfoldable pub refine : Host → (max fuel delta size : ℕ) → ℕ
refine host max zero delta size = size
refine host max (suc fuel) delta size =
    let rest = refine host max fuel (delta / 2) (step_up host max delta size) in
    if delta == 0 then size else rest

-- the first value of `size` and `max`, given what `bytes` makes of the argument, if there is one
unfoldable pub start_size : (argument : Option ℕ) → ℕ
start_size none = 1024 * mb
start_size (some n) = let size = n * mb % 2 ^ 64 in if ltb size mb then 1024 * mb else size

-- the steps up, from what the first loop finds
unfoldable pub found_from : Host → Option (ℕ × ℕ) → Option ℕ
found_from host none = none
found_from host (some (size, max)) = some (refine host max 64 (size / (2 * mb)) size)

-- The size that `main` measures. A size has 64 bits, so that it is 0 after as many halvings.
unfoldable pub found_size : Host → (argument : Option ℕ) → Option ℕ
found_size host argument =
    found_from host (halve host 65 (start_size argument) (start_size argument))

-- `touchRange(p, range, stride)` for a stride that is not 0, `-stride` if it goes down: the offsets
-- that are written, in order. The alarm comes after so many of them.
unfoldable pub touch_loop : (up : Bool) (delta fuel tmp range alarm : ℕ) → List ℕ
touch_loop up delta zero tmp range alarm = []
touch_loop up delta (suc fuel) tmp range zero = []
touch_loop up delta (suc fuel) tmp range (suc alarm) =
    let next = if up then tmp + delta else tmp - delta in
    let rest = touch_loop up delta fuel next (range - delta) alarm in
    if ltb (delta - 1) range then tmp ∷ rest else []

unfoldable pub touch_range : (up : Bool) (range delta alarm : ℕ) → List ℕ
touch_range up range delta alarm =
    touch_loop up delta range (if up then 0 else range - 1) range alarm

-- `for (s = 8 * 1024 * 1024; s <= range; s *= 2) ;`
unfoldable pub double_above : (range fuel s : ℕ) → ℕ
double_above range zero s = s
double_above range (suc fuel) s =
    let rest = double_above range fuel (s * 2) in if leb s range then rest else s

-- the increment after `range` was touched in time
unfoldable pub next_incr : (size range : ℕ) → ℕ
next_incr size range =
    let incr = double_above range range (8 * mb) / 8 in
    if ltb range size && ltb size (range + incr) then size - range else incr

abbrev pub too_long : ℕ
too_long = 10

-- `(sum / n) > TOO_LONG || alarm_triggered`: `times range` is the time of the second `touchRange`
-- in the round for `range`, and whether the alarm came.
unfoldable pub too_slow : (pagesize : ℕ) (times : ℕ → ℕ × Bool) (range : ℕ) → Bool
too_slow pagesize times range =
    ltb too_long ((times range).0 / (range / pagesize)) || (times range).1

-- the `for` over `range`: the size that is left
unfoldable pub time_ranges : (pagesize : ℕ) (times : ℕ → ℕ × Bool) (size fuel range incr : ℕ) → ℕ
time_ranges pagesize times size zero range incr = size
time_ranges pagesize times size (suc fuel) range incr =
    let next = next_incr size range in
    let rest = time_ranges pagesize times size fuel (range + next) next in
    if leb range size then (if too_slow pagesize times range then range - incr else rest) else size

-- What `timeit` prints, none for a size that is too small. Each round adds at least 1 to the range.
unfoldable pub timeit : (pagesize : ℕ) (times : ℕ → ℕ × Bool) (size : ℕ) → Option ℕ
timeit pagesize times size =
    if ltb size (mb - 16 * 1024)
    then none
    else some (time_ranges pagesize times size size (2 * mb) mb / mb)
