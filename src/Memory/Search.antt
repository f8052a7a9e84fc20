-- ===== src/Memory/Search.antt =====
-- `line_find` of lmbench3/src/lib_mem.c: its search for the size of a cache line among the times of
-- `line_test`.
use repo_support_tools.Base.{
  ℕ, zero, suc, ◌*◌, ◌/◌, Bool, true, false, ◌&&◌, not, Option, none, some, ltb, if◌then◌else◌,
}
use repo_support_tools.Doubles.{Doubles}
use repo_support_tools.Memory.State.{pointer_size}

module _ (f : Doubles) where
  open f use {D, of_ℕ, mul, div, lt}

  -- `t == 0.`
  abbrev pub is_zero : D → Bool
  is_zero t = not (lt t (of_ℕ 0)) && not (lt (of_ℕ 0) t)

  abbrev pub jumps : (t baseline : D) → Bool
  jumps t baseline = lt (mul (div (of_ℕ 13) (of_ℕ 10)) baseline) t

  abbrev pub stays : (t baseline : D) → Bool
  stays t baseline = lt t (mul (div (of_ℕ 115) (of_ℕ 100)) baseline)

  -- `for (i = sizeof(char*); i <= maxline; i<<=1)` from a size `i` on, where `time i` is what
  -- `line_test` gives: the line that is found, or 0. `i` doubles, so that `maxline` rounds are enough
  -- fuel. In the first round there is no `baseline` yet.
  unfoldable pub search_line :
      (time : ℕ → D) (maxline fuel i : ℕ) (big_jump : Bool) (baseline : Option D) → ℕ
  search_line time maxline zero i big_jump baseline = 0
  search_line time maxline (suc fuel) i big_jump none =
      let rest = search_line time maxline fuel (i * 2) big_jump (some (time i)) in
      if ltb maxline i then 0 else if is_zero (time i) then 0 else rest
  search_line time maxline (suc fuel) i big_jump (some baseline) =
      let jumped = search_line time maxline fuel (i * 2) true (some (time i)) in
      let rest = search_line time maxline fuel (i * 2) big_jump (some (time i)) in
      if ltb maxline i
      then 0
      else if is_zero (time i)
      then 0
      else if jumps (time i) baseline
      then jumped
      else if big_jump && stays (time i) baseline
      then i / 2
      else rest

  -- `page` is what `getpagesize` gives.
  unfoldable pub find_line : (time : ℕ → D) (page : ℕ) → ℕ
  unfolding search_line
  find_line time page =
      let maxline = page / 16 in search_line time maxline maxline pointer_size false none
