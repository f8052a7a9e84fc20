-- ===== src/Memory/Tlb.antt =====
-- `tlb_initialize` of lmbench3/src/lib_mem.c: one word on each of the pages, which are allocated one
-- by one. Pointers are addresses here.
use Prim.Native.Nat.{bit_xor}
use repo_support_tools.Base.{
  ℕ, zero, suc, ◌+◌, ◌-◌, ◌*◌, ◌/◌, ◌%◌, ◌^◌, List, [], ◌∷◌, Option, none, some, get_or, ◌==◌,
  if◌then◌else◌,
}
use repo_support_tools.Memory.Chain.{Cells, store}
use repo_support_tools.Memory.Shuffle.{swap}

-- `valloc k size` is what the `k`-th call of `valloc` gives.
module _ (valloc : (call size : ℕ) → Option ℕ) where
  -- an aligned page, from a second and larger block where the first is not aligned, and the calls
  unfoldable pub take_page : (pagesize calls : ℕ) → Option (ℕ × ℕ)
  take_page pagesize calls = elim (valloc calls pagesize) [
    | none ↦ none
    | some p ↦
        if p % pagesize == 0
        then some (p, calls + 1)
        else elim (valloc (calls + 1) (2 * pagesize)) [
          | none ↦ none
          | some q ↦ some (q + (pagesize - q % pagesize), calls + 2)
        ]
  ]

  -- the loop over the pages, with `k` rounds left; `none` where the memory does not suffice
  unfoldable pub take_pages : (pagesize k calls : ℕ) → Option (List ℕ)
  unfolding take_page
  take_pages pagesize zero calls = some []
  take_pages pagesize (suc k) calls = elim (take_page pagesize calls) [
    | none ↦ none
    | some (p, calls') ↦ elim (take_pages pagesize k calls') [
      | none ↦ none
      | some ps ↦ some (p ∷ ps)
    ]
  ]

-- `rand k` is what the `k`-th call of `rand` gives; `r` is an `unsigned int`.
module _ (rand : ℕ → ℕ) where
  -- `for (i = npages - 2; i > 0; --i)`
  unfoldable pub mix_pages : (i r calls : ℕ) → List ℕ → List ℕ
  mix_pages zero r calls pages = pages
  mix_pages (suc i) r calls pages =
      let r' = bit_xor (r * 2 % 2 ^ 32) (rand calls / 2 ^ 4) in
      mix_pages i r' (calls + 1) (swap (r' % suc i + 1) (suc i + 1) pages)

  unfoldable pub random_pages : (npages calls : ℕ) → List ℕ → List ℕ
  unfolding mix_pages
  random_pages npages calls pages =
      mix_pages (npages - 2) (bit_xor (rand calls * 2 ^ 15 % 2 ^ 32) (rand (calls + 1))) (calls + 2)
        pages

module _ (pages lines : List ℕ) (nlines : ℕ) where
  abbrev pub word_on : ℕ → ℕ
  word_on i = get_or pages i 0 + get_or lines (i % nlines) 0

  -- `for (i = 0; i < npages - 1; ++i)`, with `k` rounds left
  unfoldable pub tlb_loop : (i k : ℕ) → Cells → Cells
  tlb_loop i zero cells = cells
  tlb_loop i (suc k) cells = tlb_loop (i + 1) k (store (word_on i) (word_on (i + 1)) cells)

  unfoldable pub tlb_layout : (npages : ℕ) → Cells → Cells
  unfolding tlb_loop
  tlb_layout npages cells =
      store (word_on (npages - 1)) (get_or pages 0 0 + get_or lines 0 0)
        (tlb_loop 0 (npages - 1) cells)
