-- ===== src/Cache/Pages.antt =====
-- `pagesort` and `remove_chunk` of lmbench3/src/cache.c, and how pages are swapped there. The array of
-- page offsets is a list. `SWAP` keeps an offset in an `int`, which holds it: it is below 2^31.
pub mod Pairs
pub mod Sorted
pub mod Restored
pub mod Reordered
use repo_support_tools.Base.{
  ℕ, zero, suc, ◌+◌, ◌-◌, ◌*◌, Bool, true, false, List, [], ◌∷◌, length, take, drop, ◌++◌, map, ltb,
  if◌then◌else◌,
}
use repo_support_tools.Doubles.{Doubles}
use repo_support_tools.Memory.Shuffle.{swap}

module _ (f : Doubles) where
  open f use {D, lt}

  -- the loop over `j` for one `i`: the latency and the page that it leaves at `i`, and the rest
  unfoldable pub sweep : D × ℕ → List (D × ℕ) → (D × ℕ) × List (D × ℕ)
  sweep x [] = (x, [])
  sweep x (y ∷ l) =
      let exchange = lt y.0 x.0 in
      let rest = sweep (if exchange then y else x) l in
      (rest.0, (if exchange then x else y) ∷ rest.1)

  -- the loop over `i`, on fuel
  unfoldable pub pagesort_from : ℕ → List (D × ℕ) → List (D × ℕ)
  unfolding sweep
  pagesort_from zero l = l
  pagesort_from (suc fuel) [] = []
  pagesort_from (suc fuel) (x ∷ l) = let r = sweep x l in r.0 ∷ pagesort_from fuel r.1

  -- `pagesort(n, pages, latencies)`: the two arrays of `n` elements are a list of pairs.
  unfoldable pub pagesort : List (D × ℕ) → List (D × ℕ)
  unfolding pagesort_from
  pagesort l = pagesort_from (length l) l

-- the loops of `remove_chunk`: `pages[i+j]` and `pages[npages-1-j]` change places, from `j` on, with
-- `k` rounds left
unfoldable pub exchange_ends : (i npages k j : ℕ) → List ℕ → List ℕ
unfolding swap
exchange_ends i npages zero j pages = pages
exchange_ends i npages (suc k) j pages =
    exchange_ends i npages k (suc j) (swap (i + j) (npages - 1 - j) pages)

-- the loops of `fixup_chunk` that move a chunk to the end of the list, and back
unfoldable pub exchange_tail : (i npages chunk k j : ℕ) → List ℕ → List ℕ
unfolding swap
exchange_tail i npages chunk zero j pages = pages
exchange_tail i npages chunk (suc k) j pages =
    exchange_tail i npages chunk k (suc j) (swap (i + j) (npages - chunk + j) pages)
