-- ===== src/Cache/Chunks/Kept.antt =====
-- What `fixup_chunk` of lmbench3/src/cache.c keeps.
use mathlib.Core.List.Perm
use mathlib.Core.Path.{subst}
use mathlib.Core.Option.{some-injective}
use repo_support_tools.Base.{
  ℕ, ◌+◌, ◌*◌, ◌/◌, ◌%◌, ◌≤◌, ◌≡◌, true, List, length, length-replicate, refl, ap, sym, arith,
  Bool-cases, inl, inr, ◌⊎◌, some, ltb, ◌==◌, if◌then◌else◌, if_elim,
}
use repo_support_tools.Doubles.{Doubles}
use repo_support_tools.Cache.Pages.{exchange_tail}
use repo_support_tools.Cache.Chunks.Removed.{measure-pages}
use repo_support_tools.Cache.Measure.{Machine, State, measure}
use repo_support_tools.Cache.Chunks.{
  Fixup, scaled, settle, start_index, replace_pages, fixup_chunk, spare_modulus,
}
use repo_support_tools.Cache.Pages.Reordered.{IsReordered, exchange_tail-IsReordered}
use repo_support_tools.Cache.Chunks.Loops.{
  IsFixup, keep_pages-IsFixup, keep_half-IsFixup, sort_rest-IsFixup, substitute_pages-IsFixup,
}

module _ (f : Doubles) (machine : Machine) (chunk npages len : ℕ) (before : List ℕ)
    (small : chunk ≤ 20) (fits : chunk ≤ npages) (within : npages ≤ length before)
    (memory : machine.maxlen / machine.pagesize ≤ length before) where
  open f use {D}

  tail-IsReordered :
      (i : ℕ) (l : List ℕ)
      → i + chunk ≤ npages
      → IsReordered before l
      → IsReordered before
          (if ltb (i + chunk) npages then exchange_tail i npages chunk chunk 0 l else l)
  tail-IsReordered i l inside h =
      if_elim (IsReordered before) _ _ _
        (exchange_tail-IsReordered before l i npages chunk chunk 0 h (omega arith) (omega arith)) h

  settle-IsReordered :
      (i index : ℕ) (baseline : D) (saved : List ℕ) (k : ℕ) (x : Fixup f machine) (swapped : ℕ)
      (baseline' : D) (s' : State)
      → i + chunk ≤ npages
      → IsFixup f machine chunk npages len before x
      → settle f machine chunk npages len i index baseline saved (k, x)
        ≡ some (swapped, baseline', s')
      → ((swapped ≡ 0) × (baseline' ≡ baseline))
        ⊎ (IsReordered before s'.pages
            × (f.lt baseline' (scaled f machine 999 1000 baseline) ≡ true))
  unfolding settle
  settle-IsReordered i index baseline saved k x swapped baseline' s' inside h e =
      let modulus = spare_modulus f machine chunk npages len in
      let s = record x.state { available_index = (k + index) % modulus } in
      let m = measure machine f len s in
      elim (Bool-cases (modulus == 0)) [
        | inl zero' ↦ absurd (let e' = rw (zero', settle) at e in cc)
        | inr pos ↦ elim (Bool-cases (x.swapped == 0)) [
          | inl none' ↦
              let e' = some-injective _ _ (rw (pos, none', settle) at e) in
              inl (sym (ap (λ r. r.0) e'), sym (ap (λ r. r.1) e'))
          | inr kept ↦ elim (Bool-cases (f.lt m.0.0 (scaled f machine 999 1000 baseline))) [
            | inr slow ↦
                let e' = some-injective _ _ (rw (pos, kept, slow, settle) at e) in
                inl (sym (ap (λ r. r.0) e'), sym (ap (λ r. r.1) e'))
            | inl fast ↦
                let e' = some-injective _ _ (rw (pos, kept, fast, settle) at e) in
                inr (
                  subst (λ (r : ℕ × D × State). IsReordered before r.2.pages) e'
                      (tail-IsReordered i m.1.pages inside (
                        subst (IsReordered before) (sym (measure-pages f machine len s))
                          h.reordered)),
                  subst
                      (λ (r : ℕ × D × State). f.lt r.1 (scaled f machine 999 1000 baseline) ≡ true)
                      e' fast,
                )
          ]
        ]
      ]

  replace_pages-IsFixup :
      (i : ℕ) (chunk_baseline : D) (s : State)
      → s.pages ≡ before
      → i + chunk ≤ npages
      → IsFixup f machine chunk npages len before
          (replace_pages f machine chunk npages len i chunk_baseline s).1
  unfolding replace_pages
  replace_pages-IsFixup i chunk_baseline s same inside =
      let moved =
        tail-IsReordered i s.pages inside
          (subst (IsReordered before) (sym same) (Perm.refl before, refl)) in
      let kept =
        keep_pages-IsFixup f machine chunk npages len before small fits within chunk_baseline chunk
          _
          (record {
            reordered = moved;
            size = length-replicate 20 (f.of_ℕ 0);
            inside = omega arith;
          })
          (omega arith) in
      let half =
        keep_half-IsFixup f machine chunk npages len before small fits within memory chunk_baseline
          _ (sort_rest-IsFixup f machine chunk npages len before small fits within _ kept) in
      substitute_pages-IsFixup f machine chunk npages len before small fits within memory _
        (2 * npages) 0 _ half

  -- Where `fixup_chunk` keeps other pages, on a chunk of at most 20 pages that are all of the
  -- measured size, the array of pages holds the same pages as before, each as often, and the new
  -- baseline is below 0.999 of the old one; where it keeps none, the baseline stays. The array has
  -- all pages of the memory.
  pub fixup_chunk-IsReordered :
      (i : ℕ) (baseline chunk_baseline : D) (s : State) (swapped : ℕ) (baseline' : D) (s' : State)
      → s.pages ≡ before
      → i + chunk ≤ npages
      → fixup_chunk f machine chunk npages len i baseline chunk_baseline s
        ≡ some (swapped, baseline', s')
      → ((swapped ≡ 0) × (baseline' ≡ baseline))
        ⊎ (IsReordered before s'.pages
            × (f.lt baseline' (scaled f machine 999 1000 baseline) ≡ true))
  unfolding fixup_chunk
  fixup_chunk-IsReordered i baseline chunk_baseline s swapped baseline' s' same inside e =
      let r = replace_pages f machine chunk npages len i chunk_baseline s in
      settle-IsReordered i (start_index f machine chunk npages len s) baseline s.pages r.0 r.1
        swapped baseline' s' inside (replace_pages-IsFixup i chunk_baseline s same inside) e
