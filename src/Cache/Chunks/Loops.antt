-- ===== src/Cache/Chunks/Loops.antt =====
-- What the loops of `fixup_chunk` of lmbench3/src/cache.c keep.
use mathlib.Core.List.{Perm}
use mathlib.Core.List.Perm
use mathlib.Core.Path.{subst}
use repo_support_tools.Base.{
  length-drop, ℕ, zero, suc, ◌+◌, ◌-◌, ◌*◌, ◌/◌, ◌%◌, ◌≤◌, ◌<◌, ◌≡◌, Bool, true, false, List,
  length, get_or, take, drop, set, map, length-set, length-take, refl, ◌∙◌, sym, arith, Bool-cases,
  inl, inr, leb, ◌==◌, ◌&&◌, not, if◌then◌else◌, if_elim,
}
use repo_support_tools.Doubles.{Doubles}
use repo_support_tools.Memory.Shuffle.{swap}
use repo_support_tools.Cache.Pages.{pagesort}
use repo_support_tools.Cache.Pages.Pairs.{pagesort_from-perm, length-pagesort_from}
use repo_support_tools.Cache.Measure.{Machine, measure}
use repo_support_tools.Cache.Chunks.{
  Fixup, substitute_page, with_pages, is_kept, zip, sort_rest, keep_pages, keep_half,
  try_substitute, substitute_pages,
}
use repo_support_tools.Cache.Pages.Reordered.{IsReordered, swap-IsReordered, slice-IsReordered}
use repo_support_tools.Cache.Chunks.Slices.{map-zip_second, length-zip, length-map, length-slice}

module _ (f : Doubles) (machine : Machine) (chunk npages len : ℕ) (before : List ℕ) where
  open f use {D}

  -- what the loops of `fixup_chunk` keep
  pub record IsFixup (x : Fixup f machine) : Type 0 where
    pub reordered : IsReordered before x.state.pages
    pub size : length x.latencies ≡ 20
    pub inside : x.kept ≤ chunk

  advance-IsFixup :
      (b : Bool) (j : ℕ) (x : Fixup f machine)
      → IsFixup x × (x.kept ≡ j)
      → j < chunk
      → IsFixup (if b then record x { kept = suc j; swapped = suc x.swapped } else x)
  advance-IsFixup true j x h below = record {
    reordered = h.0.reordered;
    size = h.0.size;
    inside = below;
  }
  advance-IsFixup false j x h below = h.0

  module _ (small : chunk ≤ 20) (fits : chunk ≤ npages) (within : npages ≤ length before) where
    pub sort_rest-IsFixup :
        (x : Fixup f machine) → IsFixup x → IsFixup (sort_rest f machine chunk npages len x)
    unfolding sort_rest pagesort
    sort_rest-IsFixup x h =
        let n = chunk - x.kept in
        let start = npages - chunk + x.kept in
        let latencies = take n (drop x.kept x.latencies) in
        let pages = take n (drop start x.state.pages) in
        let pairs = zip latencies pages in
        let sorted = pagesort f pairs in
        let size_latencies : length latencies ≡ n = omega (
          arith,
          length-take n (drop x.kept x.latencies),
          length-drop x.kept x.latencies,
          h.size,
          h.inside,
        ) in
        let size_pages : length pages ≡ n = omega (
          arith,
          length-take n (drop start x.state.pages),
          length-drop start x.state.pages,
          h.reordered.1,
          h.inside,
        ) in
        let size_pairs : length sorted ≡ n =
          length-pagesort_from f (length pairs) pairs
          ∙ length-zip latencies pages (omega arith)
          ∙ size_latencies in
        record {
          reordered =
              slice-IsReordered start n before x.state.pages (map (λ y. y.1) sorted) h.reordered
                (subst (Perm (map (λ y. y.1) sorted)) (map-zip_second latencies pages (omega arith))
                  (Perm.map (λ (y : D × ℕ). y.1) (pagesort_from-perm f (length pairs) pairs)))
                (length-map (λ (y : D × ℕ). y.1) sorted ∙ size_pairs ∙ sym size_pages);
          size =
              length-slice x.kept n x.latencies (map (λ y. y.0) sorted)
                (length-map (λ (y : D × ℕ). y.0) sorted ∙ size_pairs ∙ sym size_latencies)
              ∙ h.size;
          inside = h.inside;
        }

    sort_rest-kept : (x : Fixup f machine) → (sort_rest f machine chunk npages len x).kept ≡ x.kept
    unfolding sort_rest
    sort_rest-kept x = refl

    pub keep_pages-IsFixup :
        (chunk_baseline : D) (rounds : ℕ) (x : Fixup f machine)
        → IsFixup x
        → x.kept + rounds ≤ chunk
        → IsFixup (keep_pages f machine chunk npages len chunk_baseline rounds x)
    unfolding keep_pages
    keep_pages-IsFixup chunk_baseline zero x h e = h
    keep_pages-IsFixup chunk_baseline (suc rounds) x h e =
        let j = x.kept in
        let k = j + rounds in
        let m = measure machine f ((npages - chunk + j + 1) * machine.pagesize) x.state in
        let next =
          if_elim (λ (y : Fixup f machine). IsFixup y × (y.kept + rounds ≤ chunk))
            (is_kept f machine m.0.0 chunk_baseline)
            (record x { kept = suc j; latencies = set x.latencies j m.0.0; state = m.1 })
            (record x {
              latencies = set x.latencies k m.0.0;
              state = with_pages m.1 (swap (npages - chunk + j) (npages - chunk + k) m.1.pages);
            })
            (
              record {
                reordered = h.reordered;
                size = length-set x.latencies j m.0.0 ∙ h.size;
                inside = omega arith;
              },
              omega arith,
            )
            (
              record {
                reordered =
                    swap-IsReordered before m.1.pages (npages - chunk + j) (npages - chunk + k)
                      h.reordered (omega arith) (omega arith);
                size = length-set x.latencies k m.0.0 ∙ h.size;
                inside = h.inside;
              },
              omega arith,
            ) in
        keep_pages-IsFixup chunk_baseline rounds _ next.0 next.1

    module _ (memory : machine.maxlen / machine.pagesize ≤ length before) where
      try_substitute-IsFixup :
          (chunk_baseline : D) (k : ℕ) (x : Fixup f machine)
          → IsFixup x
          → x.kept < chunk
          → IsFixup (try_substitute f machine chunk npages len chunk_baseline k x)
      unfolding try_substitute
      try_substitute-IsFixup chunk_baseline k x h below =
          let j = x.kept in
          let original = npages - chunk + j in
          let sub = substitute_page f machine chunk npages len x.state.available_index k in
          let tried = swap original sub x.state.pages in
          let subset_len =
            if (j == chunk - 1) && not (len % machine.pagesize == 0)
            then len
            else (original + 1) * machine.pagesize in
          let m = measure machine f subset_len (with_pages x.state tried) in
          let back = swap original sub tried in
          let original_below : original < length before = omega arith in
          let sub_below : sub < length before = omega arith in
          let tried_ok =
            swap-IsReordered before x.state.pages original sub h.reordered original_below
              sub_below in
          let back_ok =
            swap-IsReordered before tried original sub tried_ok original_below sub_below in
          let put : Fixup f machine = record x {
            latencies = set x.latencies (chunk - 1) m.0.0;
            state = with_pages m.1 (swap (npages - 1) sub back);
          } in
          let put_ok : IsFixup put = record {
            reordered =
                swap-IsReordered before back (npages - 1) sub back_ok (omega arith) sub_below;
            size = length-set x.latencies (chunk - 1) m.0.0 ∙ h.size;
            inside = h.inside;
          } in
          let replaced =
            if_elim (λ (y : Fixup f machine). IsFixup y × (y.kept ≡ j))
              (f.lt m.0.0 (get_or x.latencies (chunk - 1) (f.of_ℕ 0)))
              (sort_rest f machine chunk npages len put) (record x { state = with_pages m.1 back })
              (sort_rest-IsFixup put put_ok, sort_rest-kept put)
              (record { reordered = back_ok; size = h.size; inside = h.inside }, refl) in
          advance-IsFixup _ j _ replaced below

      pub substitute_pages-IsFixup :
          (chunk_baseline : D) (rounds k : ℕ) (x : Fixup f machine)
          → IsFixup x
          → IsFixup (substitute_pages f machine chunk npages len chunk_baseline rounds k x).1
      unfolding substitute_pages
      substitute_pages-IsFixup chunk_baseline zero k x h = h
      substitute_pages-IsFixup chunk_baseline (suc rounds) k x h =
          elim (Bool-cases (leb chunk x.kept)) [
            | inl done ↦ rw (done, substitute_pages) h
            | inr more ↦
                rw (more, substitute_pages)
                  (substitute_pages-IsFixup chunk_baseline rounds (suc k) _
                    (try_substitute-IsFixup chunk_baseline k x h (ground arith)))
          ]

      pub keep_half-IsFixup :
          (chunk_baseline : D) (x : Fixup f machine)
          → IsFixup x
          → IsFixup (keep_half f machine chunk npages len chunk_baseline x).1
      unfolding keep_half
      keep_half-IsFixup chunk_baseline x h =
          let half : chunk / 2 ≤ chunk = omega arith in
          if_elim (λ (y : D × Fixup f machine). IsFixup y.1) _ _ _
            (record { reordered = h.reordered; size = h.size; inside = half }) h
