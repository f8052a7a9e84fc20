-- ===== src/Memory/Thrash/Whole.antt =====
-- `thrash_initialize` (lmbench3/src/lib_mem.c) on the arrays that `permutation` and
-- `words_initialize` make.
use native.Mathlib.Nat.{mul-le-mul_right, mod-lt, div-add-mod'}
use repo_support_tools.Base.{
  ℕ, suc, ◌+◌, ◌*◌, ◌/◌, ◌%◌, ◌^◌, ◌<◌, ◌≤◌, ◌≡◌, true, some, List, sym, ◌∙◌, ap, arith, get_or,
  dec_lt,
}
use repo_support_tools.Memory.Chain.{Cells}
use repo_support_tools.Memory.Chain.Ring.{IsRing}
use repo_support_tools.Memory.Words.{words_initialize}
use repo_support_tools.Memory.Shuffle.Distinct.{IsLayout}
use repo_support_tools.Memory.Line.Offsets.{offset_inj, lines-inside, lines-apart}
use repo_support_tools.Memory.Thrash.{thrash_pages}
use repo_support_tools.Memory.Thrash.Ring.{from, thrash_pages_lem}

no_wrap : (i j j' n : ℕ) → j < n → (i + j) % n ≡ (i + j') % n → j ≤ j'
no_wrap i j j' n h e = elim (dec_lt ((i + j') / n) ((i + j) / n)) [
  | yes less ↦
      let longer = mul-le-mul_right {m = suc ((i + j') / n)} {n = (i + j) / n} n less in
      absurd (omega (arith, e, longer, div-add-mod' (i + j) n, div-add-mod' (i + j') n))
  | no other ↦
      let shorter = mul-le-mul_right {m = (i + j) / n} {n = (i + j') / n} n (omega arith) in
      omega (arith, e, shorter, div-add-mod' (i + j) n, div-add-mod' (i + j') n)
]

-- Each word of each page is stored to once: `pages` are from `permutation`, `words` from
-- `words_initialize` for the 2^k words of a page.
module _ (k line npages nmpages : ℕ) (pages words : List ℕ) (pos : 0 < line)
    (fits : 2 ^ k * line ≤ 2 ^ 64) (made : words_initialize true (2 ^ k) line ≡ some words)
    (layout : IsLayout (2 ^ k * line) nmpages pages) (enough : npages ≤ nmpages)
    (some_word : 0 < 2 ^ k) where
  from-distinct :
      (i j i' j' : ℕ)
      → i < npages
      → j < 2 ^ k
      → i' < npages
      → j' < 2 ^ k
      → from pages words (2 ^ k) npages i j ≡ from pages words (2 ^ k) npages i' j'
      → (i ≡ i') × (j ≡ j')
  from-distinct i j i' j' hi hj hi' hj' e =
      let x = (i + j) % 2 ^ k in
      let x' = (i' + j') % 2 ^ k in
      let lx : x < 2 ^ k = mod-lt (i + j) some_word in
      let lx' : x' < 2 ^ k = mod-lt (i' + j') some_word in
      let (pe, we) =
        offset_inj (2 ^ k * line) (get_or pages i 0) (get_or pages i' 0) (get_or words x 0)
          (get_or words x' 0) (layout.multiple i (omega arith)) (layout.multiple i' (omega arith))
          (lines-inside k line pos fits words made x lx)
          (lines-inside k line pos fits words made x' lx') e in
      let same_page : i ≡ i' = layout.distinct i i' (omega arith) (omega arith) pe in
      let same_turn : (i + j) % 2 ^ k ≡ (i + j') % 2 ^ k =
        lines-apart k line pos fits words made x x' lx lx' we
        ∙ ap (λ a. (a + j') % 2 ^ k) (sym same_page) in
      let below = no_wrap i j j' (2 ^ k) hj same_turn in
      let above = no_wrap i j' j (2 ^ k) hj' (sym same_turn) in (same_page, omega arith)

  -- In whole pages `thrash_initialize` leaves one closed chain through all words of all pages, which
  -- goes from page to page with each step, and to the next word of the first page behind the last
  -- page. The pages are from `permutation`, the words from `words_initialize` for a power of 2 of
  -- words in a page.
  pub thrash_pages-IsRing :
      (cells : Cells)
      → 0 < npages
      → IsRing
          (λ t. from pages words (2 ^ k) npages (t % npages) (t / npages))
          (2 ^ k * npages)
          (thrash_pages pages words (2 ^ k) npages cells)
  thrash_pages-IsRing cells some_page =
      thrash_pages_lem pages words (2 ^ k) npages from-distinct some_page cells
