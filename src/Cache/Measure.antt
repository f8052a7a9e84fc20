-- ===== src/Cache/Measure.antt =====
-- `measure` of lmbench3/src/cache.c: the chain through the pages of a size, and its time. A pointer is
-- its offset from `state->base`. The memory of a size of which the last page has less than a line is
-- not modelled: there the source reads before its array of lines.
use repo_support_tools.Base.{
  ℕ, zero, suc, ◌+◌, ◌-◌, ◌/◌, ◌%◌, List, get_or, ltb, ◌==◌, if◌then◌else◌,
}
use repo_support_tools.Doubles.{Doubles}
use repo_support_tools.Timing.Results.{
  Results, Value, insertinit, insert_all, save_median, save_minimum,
}
use repo_support_tools.Memory.Chain.{Cells, store}
use repo_support_tools.Memory.Search.{is_zero}
use repo_support_tools.Cache.Levels.{minus_one}

-- the fields of `struct mem_state` that do not change, what `getpagesize` gives, and the results that
-- are allocated. `runs calls cells p` is what the runs of `BENCH1` from the pointer `p` give in the
-- call with that number; the pointers that they follow are only read.
pub record Machine : Type 0 where
  pub pagesize : ℕ
  pub maxlen : ℕ
  pub line : ℕ
  pub nlines : ℕ
  pub nwords : ℕ
  pub lines : List ℕ
  pub words : List ℕ
  pub room : Results
  pub runs : ℕ → Cells → ℕ → List Value

-- what changes: the order of the pages, the memory, the static `available_index` of `fixup_chunk`,
-- and the number of calls of `measure` so far
pub record State : Type 0 where
  pub pages : List ℕ
  pub cells : Cells
  pub available_index : ℕ
  pub calls : ℕ

module _ (machine : Machine) where
  open machine use {pagesize, line, nlines, nwords, lines, words, room, runs}

  -- `(size + getpagesize() - 1) / getpagesize()`
  abbrev pub page_count : ℕ → ℕ
  page_count size = (size + pagesize - 1) / pagesize

  abbrev pub line_count : ℕ → ℕ
  line_count size = if size % pagesize == 0 then nlines else size % pagesize / line

  abbrev pub spot : (pages : List ℕ) (i l j : ℕ) → ℕ
  spot pages i l j = get_or pages i 0 + get_or lines l 0 + get_or words j 0

  -- the inner loop: the last line of page `i` leads to the next page, word by word
  unfoldable pub link_words : (pages : List ℕ) (i k j : ℕ) → Cells → Cells
  link_words pages i zero j cells = cells
  link_words pages i (suc k) j cells =
      link_words pages i k (suc j)
        (store (spot pages i (nlines - 1) j) (spot pages (suc i) 0 j) cells)

  unfoldable pub link_pages : (pages : List ℕ) (k i : ℕ) → Cells → Cells
  unfolding link_words
  link_pages pages zero i cells = cells
  link_pages pages (suc k) i cells = link_pages pages k (suc i) (link_words pages i nwords 0 cells)

  -- the last page leads back to the first, to the next word
  unfoldable pub close_words : (pages : List ℕ) (npages last k j : ℕ) → Cells → Cells
  close_words pages npages last zero j cells = cells
  close_words pages npages last (suc k) j cells =
      close_words pages npages last k (suc j)
        (store (spot pages (npages - 1) (last - 1) j) (spot pages 0 0 (suc j % nwords)) cells)

  -- the last line of a partly used page leads to the next line again
  unfoldable pub reopen_words : (pages : List ℕ) (npages last k j : ℕ) → Cells → Cells
  reopen_words pages npages last zero j cells = cells
  reopen_words pages npages last (suc k) j cells =
      reopen_words pages npages last k (suc j)
        (store (spot pages (npages - 1) (last - 1) j) (spot pages (npages - 1) last j) cells)

  module _ (f : Doubles) where
    open f use {D, of_ℕ, mul, div}

    -- `(1000. * (double)gettime()) / (100. * (double)get_n())`
    abbrev pub nanoseconds : Value → D
    nanoseconds v = div (mul (of_ℕ 1000) (of_ℕ v.u)) (mul (of_ℕ 100) (of_ℕ v.n))

    -- the median time and its variation
    unfoldable pub measure : (size : ℕ) → State → (D × D) × State
    unfolding link_pages close_words reopen_words
    measure size s =
        let npages = page_count size in
        let last = line_count size in
        let chain =
          close_words s.pages npages last nwords 0 (link_pages s.pages (npages - 1) 0 s.cells) in
        let r = insert_all f (runs s.calls chain (spot s.pages 0 0 0)) (insertinit room) in
        let median = nanoseconds (save_median r) in
        let time = nanoseconds (save_minimum r) in
        let variation = if is_zero f time then minus_one f else div median time in
        let cells =
          if ltb last nlines then reopen_words s.pages npages last nwords 0 chain else chain in
        ((median, variation), record s { cells = cells; calls = suc s.calls })
