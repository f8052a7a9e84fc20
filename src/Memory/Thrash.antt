-- ===== src/Memory/Thrash.antt =====
-- `thrash_initialize` of lmbench3/src/lib_mem.c: a chain that changes the page with every access.
pub mod Ring
pub mod Whole
use repo_support_tools.Base.{
  ℕ, zero, suc, ◌+◌, ◌-◌, ◌/◌, ◌%◌, List, Option, none, some, Bool, true, false, not, ◌==◌,
  if◌then◌else◌, get_or, set, length,
}
use repo_support_tools.Memory.Chain.{Cells, store}
use repo_support_tools.Memory.State.{MemState, Environ, base_initialize, int_u64}
use repo_support_tools.Memory.Words.{words_initialize}

-- `for (i = 0; i < nwords - 1; ++i)`: each word leads to the next one
unfoldable pub word_loop : (words : List ℕ) (i k : ℕ) → Cells → Cells
word_loop words i zero cells = cells
word_loop words i (suc k) cells =
    word_loop words (i + 1) k (store (get_or words i 0) (get_or words (i + 1) 0) cells)

-- A length that is no multiple of the page size: the words of the whole block.
unfoldable pub word_layout : (words : List ℕ) (nwords : ℕ) → Cells → Cells
unfolding word_loop
word_layout words nwords cells =
    store (get_or words (nwords - 1) 0) 0 (word_loop words 0 (nwords - 1) cells)

module _ (pages words : List ℕ) (nwords npages : ℕ) where
  -- the word on page `i` that is in turn in round `j`
  abbrev pub spot : (page i j : ℕ) → ℕ
  spot page i j = get_or pages page 0 + get_or words ((i + j) % nwords) 0

  -- `for (j = 0; j < nwords; ++j)`, with `k` rounds left: from page `i` to page `n`, whose words are
  -- counted from `first` on
  unfoldable pub spread : (i n first j k : ℕ) → Cells → Cells
  spread i n first j zero cells = cells
  spread i n first j (suc k) cells =
      spread i n first (j + 1) k (store (spot i i j) (spot n first (j + 1)) cells)

  -- `for (i = 0; i < npages - 1; ++i)`, with `k` rounds left
  unfoldable pub page_rounds : (i k : ℕ) → Cells → Cells
  unfolding spread
  page_rounds i zero cells = cells
  page_rounds i (suc k) cells = page_rounds (i + 1) k (spread i (i + 1) i 0 nwords cells)

  -- the loop and, behind it, the way from the last page to the first
  unfoldable pub thrash_pages : Cells → Cells
  unfolding page_rounds
  thrash_pages cells = spread (npages - 1) 0 0 0 nwords (page_rounds 0 (npages - 1) cells)

-- The stores into a state that `base_initialize` has set up. `none` where the words are missing or
-- there is none of them in the first case: the code then leaves its arrays.
unfoldable pub thrash_layout : Environ → MemState → Cells → Option (MemState × Cells)
unfolding word_layout thrash_pages int_u64
thrash_layout env s cells =
    let whole = not (s.len % s.pagesize == 0) in
    let nwords = if whole then s.len / s.line else s.pagesize / s.line in
    elim (words_initialize env.words_memory nwords (int_u64 s.line)) [
      | none ↦ none
      | some ws ↦ elim s.pages [
        | none ↦ none
        | some ps ↦
            let made = record s { nwords = nwords; words = some ws } in
            if whole
            then (if nwords == 0
                then none
                else some (record made { p = set s.p 0 0 }, word_layout ws nwords cells))
            else some (
              record made { p = set s.p 0 (get_or ps 0 0) },
              thrash_pages ps ws nwords s.npages cells,
            )
      ]
    ]

unfoldable pub thrash_initialize : Environ → ℕ → MemState → Cells → Option (MemState × Cells)
unfolding thrash_layout
thrash_initialize env iterations s cells = elim (base_initialize env iterations s) [
  | none ↦ none
  | some b ↦ if not b.initialized then some (b, cells) else thrash_layout env b cells
]
