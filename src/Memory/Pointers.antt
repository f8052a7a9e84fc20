-- ===== src/Memory/Pointers.antt =====
-- `mem_initialize` of lmbench3/src/lib_mem.c: a chain through every word of every line, and up to 16
-- places in it to start from.
use repo_support_tools.Base.{
  ℕ, zero, suc, ◌+◌, ◌-◌, ◌/◌, ◌%◌, true, false, ◌&&◌, ◌||◌, not, List, Option, none, some, get_or,
  set, ltb, ◌==◌, if◌then◌else◌,
}
use repo_support_tools.Memory.Chain.{Cells, store}
use repo_support_tools.Memory.State.{
  MemState, Environ, base_initialize, pointer_size, int_u64, int_rounds,
}
use repo_support_tools.Memory.Words.{words_initialize}

-- `MAX_MEM_PARALLELISM`
abbrev pub max_mem_parallelism : ℕ
max_mem_parallelism = 16

-- the variables of the loop: `j` and `l`, the pointers `state->p` and the memory
pub record Walk : Type 0 where
  pub j : ℕ
  pub l : ℕ
  pub p : List ℕ
  pub cells : Cells

-- `for (k = 0; k < state->line; k += sizeof(char*))`, with `n` rounds left: the words of one line lead
-- to those of another
unfoldable pub copy_line : (here there k n : ℕ) → Cells → Cells
copy_line here there k zero cells = cells
copy_line here there k (suc n) cells =
    copy_line here there (k + pointer_size) n (store (here + k) (there + k) cells)

-- `for (k = 0; k < nwords; ++k)`, with `n` rounds left
unfoldable pub copy_words : (words : List ℕ) (here there k n : ℕ) → Cells → Cells
copy_words words here there k zero cells = cells
copy_words words here there k (suc n) cells =
    copy_words words here there (k + 1) n
      (store (here + get_or words k 0) (there + get_or words k 0) cells)

-- the last of these loops: each word leads to the next one, and the last to the first
unfoldable pub close_words : (words : List ℕ) (nwords here there k n : ℕ) → Cells → Cells
close_words words nwords here there k zero cells = cells
close_words words nwords here there k (suc n) cells =
    let nw = if k == nwords - 1 then 0 else k + 1 in
    close_words words nwords here there (k + 1) n
      (store (here + get_or words k 0) (there + get_or words nw 0) cells)

module _ (pages lines words : List ℕ) (line nlines npages nwords npointers width : ℕ) where
  abbrev pub line_at : (i j : ℕ) → ℕ
  line_at i j = get_or pages i 0 + get_or lines j 0

  -- a round of the loop over the lines: the line leads to the next one, and every
  -- `npointers/width`-th line gives a pointer to start from
  unfoldable pub walk_line : (i : ℕ) → Walk → Walk
  unfolding copy_line
  walk_line i w =
      let chunk = npointers / width in
      let slot = w.l / chunk in
      record {
        j = w.j + 1;
        l = w.l + 1;
        p =
            if (w.l % chunk == 0) && ltb slot max_mem_parallelism
            then set w.p slot (line_at i w.j + get_or words (slot % nwords) 0)
            else w.p;
        cells =
            copy_line (line_at i w.j) (line_at i (w.j + 1)) 0
              ((line + pointer_size - 1) / pointer_size) w.cells;
      }

  -- `for (j = 0; j < nlines - 1 && l < npointers - 1; ++j, ++l)`, with `n` rounds left
  unfoldable pub walk_lines : (i n : ℕ) → Walk → Walk
  unfolding walk_line
  walk_lines i zero w = w
  walk_lines i (suc n) w =
      let rest = walk_lines i n (walk_line i w) in if ltb w.l (npointers - 1) then rest else w

  -- `for (i = 0; i < npages; ++i)`, with `n` rounds left
  unfoldable pub walk_pages : (i n : ℕ) → Walk → Walk
  unfolding walk_lines copy_words
  walk_pages i zero w = w
  walk_pages i (suc n) w =
      let w' = walk_lines i (nlines - 1) (record w { j = 0 }) in
      let linked = copy_words words (line_at i w'.j) (line_at (i + 1) 0) 0 nwords w'.cells in
      walk_pages (i + 1) n (if ltb i (npages - 1) then record w' { cells = linked } else w')

  unfoldable pub walk_all : Walk → Walk
  unfolding walk_pages close_words
  walk_all w =
      let w' = walk_pages 0 npages w in
      record w' {
        cells =
            close_words words nwords (line_at (npages - 1) w'.j) (line_at 0 0) 0 nwords w'.cells;
      }

-- The handler; its last run through the chain reads memory only. `none` for a division by 0 in the
-- loop (fewer pointers than `width`, or a line that holds no pointer), and for a `width` of 0.
unfoldable pub mem_initialize : Environ → ℕ → MemState → Cells → Option (MemState × Cells)
unfolding walk_all int_u64 int_rounds
mem_initialize env iterations s cells =
    if not (iterations == 0) then some (s, cells) else elim (base_initialize env iterations s) [
      | none ↦ none
      | some b ↦
          let words = words_initialize env.words_memory b.nwords pointer_size in
          let lines = words_initialize env.lines_memory b.nlines (int_u64 b.line) in
          let begun = record b { initialized = false; words = words; lines = lines } in
          if not b.initialized then some (b, cells) else elim words [
            | none ↦ some (begun, cells)
            | some ws ↦ elim lines [
              | none ↦ some (begun, cells)
              | some ls ↦ elim b.pages [
                | none ↦ some (begun, cells)
                | some ps ↦
                    let npointers = int_rounds (b.len / b.line) in
                    let nlines = int_rounds b.nlines in
                    let npages = int_rounds b.npages in
                    let start : Walk = record { j = 0; l = 0; p = b.p; cells = cells } in
                    let w =
                      walk_all ps ls ws b.line nlines npages b.nwords npointers b.width start in
                    let walks = ltb 0 npages && ltb 1 nlines && ltb 1 npointers in
                    if (walks && ((npointers / b.width == 0) || (b.nwords == 0))) || (b.width == 0)
                    then none
                    else some (record begun { initialized = true; p = w.p }, w.cells)
              ]
            ]
          ]
    ]
