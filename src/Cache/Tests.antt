-- ===== src/Cache/Tests.antt =====
-- `test_chunk` of lmbench3/src/cache.c: which parts of a chunk `fixup_chunk` is called for.
pub mod Ends
use repo_support_tools.Base.{
  ℕ, zero, suc, ◌+◌, ◌-◌, ◌*◌, ◌/◌, ◌%◌, Bool, true, false, ◌&&◌, ◌||◌, not, List, [], ◌∷◌, ◌++◌,
  map, Option, none, some, get_or, set, take, drop, replicate, ltb, leb, ◌==◌, if◌then◌else◌,
}
use repo_support_tools.Doubles.{Doubles}
use repo_support_tools.Memory.Shuffle.{swap}
use repo_support_tools.Cache.Pages.{pagesort, exchange_ends, exchange_tail}
use repo_support_tools.Cache.Measure.{Machine, State, measure}
use repo_support_tools.Cache.Chunks.{remove_chunk, fixup_chunk, scaled}

module _ (f : Doubles) (machine : Machine) where
  open f use {D, lt}

  -- the variables of `test_chunk` that its loop changes
  pub record Tested : Type 0 where
    pub modified : Bool
    pub baseline : D
    pub nodiff : D
    pub state : State

  -- `t >= 0.99 * *baseline` or `t >= 0.999 * nodiff_chunk_baseline`
  abbrev pub no_gain : (t : D) → Tested → Bool
  no_gain t x =
      not (lt t (scaled f machine 99 100 x.baseline))
      || not (lt t (scaled f machine 999 1000 x.nodiff))

  module _ (npages len : ℕ) where
    -- a round of the loop, where `test` is `test_chunk` on the part of the chunk
    unfoldable pub test_part :
        (test : (i chunk : ℕ) (baseline t : D) → State → Option (Bool × D × State)) (j subchunk : ℕ)
        → Tested
        → Option Tested
    unfolding remove_chunk
    test_part test j subchunk x =
        let (t, s) = remove_chunk f machine j subchunk npages len x.state in
        let (tt', s') = remove_chunk f machine j subchunk npages len s in
        let t' = if lt t tt' then tt' else t in
        if no_gain t x
        then some (record x { state = s })
        else if no_gain t' x
        then some (record x { state = s' })
        else elim (test j subchunk x.baseline t' s') [
          | none ↦ none
          | some (changed, baseline, after) ↦ some (record {
            modified = x.modified || changed;
            baseline = baseline;
            nodiff = if changed then x.nodiff else t';
            state = after;
          })
        ]

    -- `for (j = i; j < i + chunk; j += subchunk)`, on fuel for its rounds and the last test: `none` if
    -- it is used up. Each round is one page at least.
    unfoldable pub test_parts :
        (test : (i chunk : ℕ) (baseline t : D) → State → Option (Bool × D × State))
        (last rounds j subchunk : ℕ)
        → Tested
        → Option Tested
    unfolding test_part
    test_parts test last zero j subchunk x = none
    test_parts test last (suc rounds) j subchunk x =
        let part = if ltb last (j + subchunk) then last - j else subchunk in
        if leb last j then some x else elim (test_part test j part x) [
          | none ↦ none
          | some x' ↦ test_parts test last rounds (j + part) part x'
        ]

    -- On fuel for the depth of the calls: `none` if it, or that of the loop, is used up, and for a division by 0.
    unfoldable pub test_chunk :
        (fuel i chunk : ℕ) (baseline chunk_baseline : D) → State → Option (Bool × D × State)
    unfolding fixup_chunk test_parts
    test_chunk zero i chunk baseline chunk_baseline s = none
    test_chunk (suc fuel) i chunk baseline chunk_baseline s =
        if leb chunk 20 && ltb chunk npages
        then elim (fixup_chunk f machine chunk npages len i baseline chunk_baseline s) [
          | none ↦ none
          | some (swapped, baseline', s') ↦ some (not (swapped == 0), baseline', s')
        ]
        else let start : Tested = record {
          modified = false;
          baseline = baseline;
          nodiff = baseline;
          state = s;
        } in
          elim (test_parts (test_chunk fuel) (i + chunk) (chunk + 1) i ((chunk + 19) / 20) start) [
            | none ↦ none
            | some x ↦ some (x.modified, x.baseline, x.state)
          ]
