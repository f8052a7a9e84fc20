-- ===== src/Cache/Pages/Reordered.antt =====
-- Exchanges of pages in lmbench3/src/cache.c leave the same pages in another order.
use mathlib.Core.List.{Perm}
use mathlib.Core.List.Perm
use mathlib.Core.Path.{subst}
use repo_support_tools.Base.{
  ℕ, zero, suc, ◌+◌, ◌-◌, ◌≤◌, ◌<◌, ◌≡◌, List, ◌++◌, length, take, drop, ◌∙◌, arith,
}
use repo_support_tools.Memory.Shuffle.{swap}
use repo_support_tools.Memory.Shuffle.Rearranges.{swap-perm, length-swap}
use repo_support_tools.Cache.Pages.{exchange_tail}
use repo_support_tools.Cache.Chunks.Slices.{slice_lem, length-slice}

-- the same pages in another order
abbrev pub IsReordered : List ℕ → List ℕ → Type 0
IsReordered before after = Perm after before × (length after ≡ length before)

pub swap-IsReordered :
    (before l : List ℕ) (i j : ℕ)
    → IsReordered before l
    → i < length before
    → j < length before
    → IsReordered before (swap i j l)
swap-IsReordered before l i j h hi hj = (
  Perm.trans (swap-perm i j l (omega (arith, h.1)) (omega (arith, h.1))) h.0,
  length-swap i j l ∙ h.1,
)

pub exchange_tail-IsReordered :
    (before l : List ℕ) (i npages chunk k j : ℕ)
    → IsReordered before l
    → i + j + k ≤ length before
    → npages - chunk + j + k ≤ length before
    → IsReordered before (exchange_tail i npages chunk k j l)
unfolding exchange_tail
exchange_tail-IsReordered before l i npages chunk zero j h h1 h2 = h
exchange_tail-IsReordered before l i npages chunk (suc k) j h h1 h2 =
    exchange_tail-IsReordered before (swap (i + j) (npages - chunk + j) l) i npages chunk k (suc j)
      (swap-IsReordered before l (i + j) (npages - chunk + j) h (omega arith) (omega arith))
      (omega arith) (omega arith)

pub slice-IsReordered :
    (start n : ℕ) (before l m : List ℕ)
    → IsReordered before l
    → Perm m (take n (drop start l))
    → length m ≡ length (take n (drop start l))
    → IsReordered before (take start l ++ m ++ drop n (drop start l))
slice-IsReordered start n before l m h p e =
    let d = drop n (drop start l) in
    (
      Perm.trans
          (subst (Perm (take start l ++ m ++ d)) (slice_lem start n l)
            (Perm.append_right d (Perm.append_left (take start l) p)))
          h.0,
      length-slice start n l m e ∙ h.1,
    )
