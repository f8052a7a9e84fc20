-- ===== src/Memory/LineTest.antt =====
-- `line_test` and `line_find` of lmbench3/src/lib_mem.c: the time of a chain that visits some of the
-- lines of each page only. The chain is shortened for the measurement and made whole again after it.
pub mod Restores
use repo_support_tools.Base.{
  ℕ, zero, suc, ◌+◌, ◌-◌, ◌*◌, ◌/◌, ◌<◌, Bool, true, false, ◌&&◌, List, [], ◌∷◌, Option, none, some,
  get_or, ltb, leb, ◌==◌, if◌then◌else◌, replicate,
}
use repo_support_tools.Doubles.{Doubles}
use repo_support_tools.Timing.Results.{Results, Value, blank, insert_all, save_median}
use repo_support_tools.Memory.Chain.{Cells, store}

module _ (pages lines : List ℕ) where
  -- the place of line `l` on page `i`
  abbrev pub place : (i l : ℕ) → ℕ
  place i l = get_or pages i 0 + get_or lines l 0

  -- `for (i = 0; i < npages - 1; ++i)`: the last visited line of each page leads to the next page
  unfoldable pub skip_loop : (nlines i k : ℕ) → Cells → Cells
  skip_loop nlines i zero cells = cells
  skip_loop nlines i (suc k) cells =
      skip_loop nlines (i + 1) k (store (place i (nlines - 1)) (place (i + 1) 0) cells)

  unfoldable pub shorten : (nlines npages : ℕ) → Cells → Cells
  unfolding skip_loop
  shorten nlines npages cells =
      store (place (npages - 1) (nlines - 1)) (place 0 0) (skip_loop nlines 0 (npages - 1) cells)

  -- the same loop behind the measurement: that line leads to the next one again
  unfoldable pub repair_loop : (nlines i k : ℕ) → Cells → Cells
  repair_loop nlines i zero cells = cells
  repair_loop nlines i (suc k) cells =
      repair_loop nlines (i + 1) k (store (place i (nlines - 1)) (place i nlines) cells)

  unfoldable pub repair : (nlines npages : ℕ) → Cells → Cells
  unfolding repair_loop
  repair nlines npages cells =
      store (place (npages - 1) (nlines - 1)) (place (npages - 1) nlines)
        (repair_loop nlines 0 (npages - 1) cells)

module _ (f : Doubles) where
  open f use {D, of_ℕ, add, mul, div, lt}

  -- `runs` is what the runs of `BENCH1` give on the memory that the chain is in; the pointers that
  -- they follow are only read. `room` is the result set that was allocated.
  unfoldable pub line_test :
      (runs : Cells → List Value) (room : Results) (pages lines : List ℕ)
      (pagesize npages nlines line : ℕ)
      → Cells
      → D × Cells
  unfolding shorten repair
  line_test runs room pages lines pagesize npages nlines line cells =
      let visited = pagesize / line in
      let some_lines = ltb visited nlines in
      let cells' = if some_lines then shorten pages lines visited npages cells else cells in
      let v = save_median (insert_all f (runs cells') (record room { count = 0 })) in
      (
        div (mul (of_ℕ 10) (of_ℕ v.u)) (of_ℕ v.n),
        if some_lines then repair pages lines visited npages cells' else cells',
      )
