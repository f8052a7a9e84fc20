-- ===== src/Memory/Line/Whole.antt =====
-- `line_initialize` as a whole: from the parameters of the state to the ring in memory.
use native.Mathlib.Nat.{div-eq_of_lt, mod-eq_of_lt}
use mathlib.Core.List.{Perm}
use mathlib.Core.Path.{ap₂}
use repo_support_tools.Base.{
  ℕ, ◌+◌, ◌-◌, ◌*◌, ◌/◌, ◌^◌, ◌<◌, ◌≡◌, refl, ap, ◌∙◌, List, some, true, false, arith, get_or,
  get_or-set_self,
}
use repo_support_tools.Memory.Chain.{Cells}
use repo_support_tools.Memory.Chain.Ring.{IsRing}
use repo_support_tools.Memory.State.{
  MemState, Environ, base_initialize, base_finish, int_u64, int_rounds_small,
}
use repo_support_tools.Memory.Shuffle.{multiples}
use repo_support_tools.Memory.Words.{words_initialize}
use repo_support_tools.Memory.Words.Order.{words_initialize-made}
use repo_support_tools.Memory.Shuffle.Distinct.{IsLayout}
use repo_support_tools.Memory.Line.{page_loop, line_layout, line_initialize}
use repo_support_tools.Memory.Line.Ring.{node, page_loop-IsRing}
use repo_support_tools.Memory.Line.Offsets.{
  IsEachLine, IsSpread, node-distinct, lines-inside, lines-apart, lines-IsEachLine,
}
use repo_support_tools.Memory.Line.Ready.{IsReady}
use repo_support_tools.Memory.Line.Ready as Ready

-- The path through the handler on which nothing fails.
line_initialize-made :
    (env : Environ) (s : MemState) (cells : Cells) (block : ℕ) (pages lines : List ℕ)
    → base_initialize env 0 s ≡ some (base_finish (some block) (some pages) s)
    → words_initialize env.lines_memory (int_u64 (s.pagesize / s.line)) (int_u64 s.line)
      ≡ some lines
    → line_initialize env 0 s cells
      ≡ some (
          line_layout pages lines
            (record (base_finish (some block) (some pages) s) {
              initialized = false;
              lines = some lines;
              width = 1;
            })
            cells)
unfolding line_initialize base_finish
line_initialize-made env s cells block pages lines base made = rw (base, made)

module _ (env : Environ) (s : MemState) (k block : ℕ) (ready : IsReady env s k block) where
  open ready use {line_pos, page, pointers, has_lines}

  -- the pages of the block, and those that the length needs
  abbrev nmpages : ℕ
  nmpages = (s.maxlen + s.pagesize - 1) / s.pagesize

  abbrev npages : ℕ
  npages = (s.len + s.pagesize - 1) / s.pagesize

  abbrev some_line : 0 < 2 ^ k
  some_line = Ready.some_line env s k block ready

  -- The stores of `line_initialize`, for a layout of pages and the lines that it makes.
  module _ (pages lines : List ℕ) (layout : IsLayout s.pagesize nmpages pages)
      (made : words_initialize true (2 ^ k) s.line ≡ some lines) where
    node-IsSpread : IsSpread (node pages lines (2 ^ k) npages some_line) (npages * 2 ^ k)
    node-IsSpread =
        node-distinct pages lines s.pagesize (2 ^ k) npages nmpages some_line layout
          (Ready.npages-le env s k block ready)
          (λ j h.
            rw page
              (lines-inside k s.line line_pos (Ready.page_fits env s k block ready) lines made j h))
          (lines-apart k s.line line_pos (Ready.page_fits env s k block ready) lines made)

    layout-IsRing :
        (cells : Cells)
        → IsRing
            (node pages lines (2 ^ k) npages some_line)
            (npages * 2 ^ k)
            (page_loop pages lines (2 ^ k) npages 0 npages cells)
    layout-IsRing cells = page_loop-IsRing pages lines (2 ^ k) npages some_line cells node-IsSpread

  -- `line_initialize` succeeds when memory is there, for a page of 2^k lines and for sizes and a
  -- number of pages that an `int` holds. Its pages are all pages of the block, each once and without
  -- wrap-around, and its lines are the offsets of all lines of a page, each once. The memory then
  -- holds a ring through the first word of every line of as many of the pages as the length needs,
  -- which are different places, and the first pointer of the state is the first place of the ring.
  pub line_initialize-IsRing :
      (cells : Cells)
      → (after : MemState) × (cells' : Cells) × (pages : List ℕ) × (lines : List ℕ)
        × (line_initialize env 0 s cells ≡ some (after, cells'))
        × (after.initialized ≡ true)
        × (after.pages ≡ some pages)
        × (after.lines ≡ some lines)
        × (after.npages ≡ npages)
        × Perm pages (multiples s.pagesize 0 nmpages)
        × IsLayout s.pagesize nmpages pages
        × IsEachLine (2 ^ k) s.line lines
        × (get_or after.p 0 0 ≡ node pages lines (2 ^ k) npages some_line 0)
        × IsSpread (node pages lines (2 ^ k) npages some_line) (npages * 2 ^ k)
        × IsRing (node pages lines (2 ^ k) npages some_line) (npages * 2 ^ k) cells'
  unfolding base_finish line_layout
  line_initialize-IsRing cells =
      let (pages, base, layout, all) = Ready.base_initialize-made env s k block ready in
      let nlines_kept = Ready.nlines-int env s k block ready in
      let npages_kept = Ready.npages-int env s k block ready in
      let lines_few = Ready.lines_few env s k block ready in
      let (lines, made) = words_initialize-made (2 ^ k) s.line in
      let b = base_finish (some block) (some pages) s in
      let w = record b { initialized = false; lines = some lines; width = 1 } in
      let (after, cells') = line_layout pages lines w cells in
      let few : npages < 2 ^ 31 =
        omega (arith, ready.pages_int, Ready.npages-le env s k block ready) in
      (
        after,
        cells',
        pages,
        lines,
        line_initialize-made env s cells block pages lines base (
            ap₂ (λ m n. words_initialize m n (int_u64 s.line)) has_lines nlines_kept
            ∙ ap (words_initialize true (2 ^ k)) (Ready.line-int env s k block ready)
            ∙ made),
        refl,
        refl,
        refl,
        npages_kept,
        all,
        layout,
        lines-IsEachLine k s.line line_pos (Ready.page_fits env s k block ready) lines made,
        get_or-set_self s.p 0 (get_or pages 0 0 + get_or lines 0 0) 0 pointers
            ∙ rw (div-eq_of_lt some_line, mod-eq_of_lt some_line),
        node-IsSpread pages lines layout made,
        rw
            (
              nlines_kept,
              npages_kept,
              int_rounds_small (2 ^ k) lines_few,
              int_rounds_small npages few,
            )
            (layout-IsRing pages lines layout made cells),
      )
