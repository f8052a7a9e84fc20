-- ===== src/Memory/Line.antt =====
-- `line_initialize` of lmbench3/src/lib_mem.c: a chain through the first word of every line of every
-- page.
pub mod Ring
pub mod Offsets
pub mod Ready
pub mod Whole
use repo_support_tools.Base.{
  ℕ, zero, suc, ◌+◌, ◌-◌, ◌*◌, ◌<◌, List, [], ◌∷◌, Option, none, some, Bool, true, false, not, ltb,
  ◌==◌, if◌then◌else◌, get_or, set,
}
use repo_support_tools.Memory.Chain.{Cells, store}
use repo_support_tools.Memory.State.{MemState, Environ, base_initialize, int_u64, int_rounds}
use repo_support_tools.Memory.Words.{words_initialize}

module _ (pages lines : List ℕ) (nlines npages : ℕ) where
  -- `for (j = 0; j < nlines - 1; ++j)`, with `k` rounds left
  unfoldable pub line_loop : (i j k : ℕ) → Cells → Cells
  line_loop i j zero cells = cells
  line_loop i j (suc k) cells = line_loop i (j + 1) k (
      store (get_or pages i 0 + get_or lines j 0) (get_or pages i 0 + get_or lines (j + 1) 0) cells)

  -- `for (i = 0; i < npages; ++i)`, with `k` rounds left. Behind the inner loop `j` is `nlines - 1`.
  unfoldable pub page_loop : (i k : ℕ) → Cells → Cells
  page_loop i zero cells = cells
  page_loop i (suc k) cells = page_loop (i + 1) k (
      store (get_or pages i 0 + get_or lines (nlines - 1) 0)
        (get_or pages (if ltb i (npages - 1) then i + 1 else 0) 0 + get_or lines 0 0)
        (line_loop i 0 (nlines - 1) cells))

-- The stores into a state that `base_initialize` has set up, once the lines are there. `nlines` and
-- `npages` are an `int` here.
unfoldable pub line_layout : List ℕ → List ℕ → MemState → Cells → MemState × Cells
unfolding page_loop line_loop int_rounds
line_layout pages lines s cells =
    let npages = int_rounds s.npages in
    (
      record s { initialized = true; p = set s.p 0 (get_or pages 0 0 + get_or lines 0 0) },
      page_loop pages lines (int_rounds s.nlines) npages 0 npages cells,
    )

-- The handler; its last run through the chain reads memory only.
unfoldable pub line_initialize : Environ → ℕ → MemState → Cells → Option (MemState × Cells)
unfolding line_layout int_u64
line_initialize env iterations s cells =
    if not (iterations == 0) then some (s, cells) else elim (base_initialize env iterations s) [
      | none ↦ none
      | some b ↦
          if not b.initialized
          then some (b, cells)
          else let allocated = λ (lines : Option (List ℕ)). record b {
            initialized = false;
            lines = lines;
            width = 1;
          } in
            elim (words_initialize env.lines_memory b.nlines (int_u64 b.line)) [
              | none ↦ some (allocated none, cells)
              | some ls ↦ elim b.pages [
                | none ↦ some (allocated (some ls), cells)
                | some ps ↦ some (line_layout ps ls (allocated (some ls)) cells)
              ]
            ]
    ]
