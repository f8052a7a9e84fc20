-- ===== src/Memory/Line/Ring.antt =====
-- The chain that `line_initialize` leaves is a ring through all lines of all pages.
use native.Mathlib.Nat.{
  mul-le-mul_right, add-mul-div_right, add-mul-mod_self_right, div-eq_of_lt, mod-eq_of_lt, add-zero,
  zero-add, zero-mul,
}
use mathlib.Core.Path.{subst}
use repo_support_tools.Base.{
  ℕ, zero, suc, ◌+◌, ◌-◌, ◌*◌, ◌/◌, ◌%◌, ◌≤◌, ◌<◌, ◌≡◌, refl, sym, List, true, false, ltb, lt→ltb,
  if◌then◌else◌, arith, dec_lt, get_or,
}
use repo_support_tools.Memory.Chain.{Cells, store}
use repo_support_tools.Memory.Chain.Ring.{
  next, link, link-add, link-zero, link-one, link-IsRing, IsRing,
}
use repo_support_tools.Memory.Line.{line_loop, page_loop}

module _ (pages lines : List ℕ) (nlines npages : ℕ) (some_line : 0 < nlines) where
  -- The address of the place `t`: lines first, then pages.
  abbrev pub node : ℕ → ℕ
  node t = get_or pages (t / nlines) 0 + get_or lines (t % nlines) 0

  node_at : (i j : ℕ) → j < nlines → node (i * nlines + j) ≡ get_or pages i 0 + get_or lines j 0
  node_at i j h =
      let flipped : i * nlines + j ≡ j + i * nlines = omega arith in
      rw (
        flipped,
        add-mul-div_right j i some_line,
        add-mul-mod_self_right j i nlines,
        div-eq_of_lt h,
        mod-eq_of_lt h,
        zero-add,
      )

  page_end : (i : ℕ) → i < npages → i * nlines + nlines ≤ npages * nlines
  page_end i h = omega (arith, mul-le-mul_right {m = suc i} {n = npages} nlines (omega arith))

  line_loop-link :
      (i j k : ℕ) (cells : Cells)
      → i < npages
      → j + k < nlines
      → line_loop pages lines nlines npages i j k cells
        ≡ link node (npages * nlines) (i * nlines + j) k cells
  unfolding line_loop link
  line_loop-link i j zero cells hi h = refl
  line_loop-link i j (suc k) cells hi h =
      let successor : next (npages * nlines) (i * nlines + j) ≡ i * nlines + (j + 1) =
        ground (arith, page_end i hi) in
      let regrouped : i * nlines + j + 1 ≡ i * nlines + (j + 1) = omega arith in
      rw (
        line_loop-link i (j + 1) k _ hi (omega arith),
        successor,
        regrouped,
        node_at i j (omega arith),
        node_at i (j + 1) (omega arith),
      )

  -- The place behind the last line of a page is the first line of the next page, or of the first.
  page_next :
      (i : ℕ)
      → i < npages
      → node (next (npages * nlines) (i * nlines + (nlines - 1)))
        ≡ get_or pages (if ltb i (npages - 1) then i + 1 else 0) 0 + get_or lines 0 0
  page_next i h = elim (dec_lt i (npages - 1)) [
    | yes p ↦
        let inner : ltb i (npages - 1) ≡ true = lt→ltb i (npages - 1) p in
        let successor : next (npages * nlines) (i * nlines + (nlines - 1)) ≡ (i + 1) * nlines + 0 =
          ground (arith, page_end (i + 1) (omega arith)) in
        rw (inner, successor) (node_at (i + 1) 0 some_line)
    | no p ↦
        let final : ltb i (npages - 1) ≡ false = ground arith in
        let same : npages ≡ suc i = omega arith in
        let whole : npages * nlines ≡ i * nlines + nlines = rw same (omega arith) in
        let successor : next (npages * nlines) (i * nlines + (nlines - 1)) ≡ 0 * nlines + 0 =
          ground arith in
        rw (final, successor) (node_at 0 0 some_line)
  ]

  page-link :
      (i : ℕ) (cells : Cells)
      → i < npages
      → store
          (get_or pages i 0 + get_or lines (nlines - 1) 0)
          (get_or pages (if ltb i (npages - 1) then i + 1 else 0) 0 + get_or lines 0 0)
          (line_loop pages lines nlines npages i 0 (nlines - 1) cells)
        ≡ link node (npages * nlines) (i * nlines) nlines cells
  page-link i cells h =
      let whole : nlines ≡ nlines - 1 + 1 = omega arith in
      subst
        (λ m.
          store (get_or pages i 0 + get_or lines (nlines - 1) 0)
            (get_or pages (if ltb i (npages - 1) then i + 1 else 0) 0 + get_or lines 0 0)
            (line_loop pages lines nlines npages i 0 (nlines - 1) cells)
          ≡ link node (npages * nlines) (i * nlines) m cells)
        (sym whole)
        (rw (
          link-add node (npages * nlines) (i * nlines) (nlines - 1) 1 cells,
          link-one node (npages * nlines) (i * nlines + (nlines - 1)),
          page_next i h,
          node_at i (nlines - 1) (omega arith),
          line_loop-link i 0 (nlines - 1) cells h (omega arith),
          add-zero,
        ))

  page_loop-link :
      (i k : ℕ) (cells : Cells)
      → i + k ≡ npages
      → page_loop pages lines nlines npages i k cells
        ≡ link node (npages * nlines) (i * nlines) (k * nlines) cells
  unfolding page_loop
  page_loop-link i zero cells e = rw (zero-mul, link-zero)
  page_loop-link i (suc k) cells e =
      let split : suc k * nlines ≡ nlines + k * nlines = omega arith in
      let behind : (i + 1) * nlines ≡ i * nlines + nlines = omega arith in
      rw (
        page-link i cells (omega arith),
        page_loop-link (i + 1) k _ (omega arith),
        split,
        link-add node (npages * nlines) (i * nlines) nlines (k * nlines) cells,
        behind,
      )

  -- With lines at different offsets inside a page, and pages that do not overlap, the loops of
  -- `line_initialize` leave a ring through every line of every page, page by page.
  pub page_loop-IsRing :
      (cells : Cells)
      → ((s t : ℕ) → s < npages * nlines → t < npages * nlines → node s ≡ node t → s ≡ t)
      → IsRing node (npages * nlines) (page_loop pages lines nlines npages 0 npages cells)
  page_loop-IsRing cells distinct =
      subst (IsRing node (npages * nlines))
        (sym (rw zero-mul at (page_loop-link 0 npages cells (omega arith))))
        (link-IsRing node (npages * nlines) distinct cells)
