-- ===== src/Cache/Tests/Ends.antt =====
-- `test_chunk` of lmbench3/src/cache.c returns.
use repo_support_tools.Base.{
  ℕ, zero, suc, ◌+◌, ◌-◌, ◌/◌, ◌%◌, ◌≤◌, ◌<◌, ◌≡◌, Bool, false, ◌&&◌, List, Option, some, refl,
  arith, Bool-cases, inl, inr, ltb, leb, ◌==◌, if◌then◌else◌,
}
use repo_support_tools.Doubles.{Doubles}
use repo_support_tools.Cache.Measure.{Machine, State, measure}
use repo_support_tools.Cache.Chunks.{
  Fixup, scaled, spare_modulus, settle, start_index, replace_pages, fixup_chunk, remove_chunk,
}
use repo_support_tools.Cache.Tests.{Tested, no_gain, test_part, test_parts, test_chunk}

-- a result, not `none`
abbrev pub IsResult {ℓ} : {A : Type ℓ} → Option A → Type ℓ
IsResult {A = A} o = (a : A) × (o ≡ some a)

part_smaller :
    (chunk npages : ℕ)
    → (leb chunk 20 && ltb chunk npages) ≡ false
    → 1 < npages
    → 0 < chunk
    → (chunk + 19) / 20 < chunk
part_smaller chunk npages h many pos = ground arith

result_of {ℓ} : {A : Type ℓ} (a : A) → IsResult (some a)
result_of a = (a, refl)

module _ (f : Doubles) (machine : Machine) where
  open f use {D}

  settle-IsResult :
      (chunk npages len i index : ℕ) (baseline : D) (saved : List ℕ) (r : ℕ × Fixup f machine)
      → (spare_modulus f machine chunk npages len == 0) ≡ false
      → IsResult (settle f machine chunk npages len i index baseline saved r)
  unfolding settle
  settle-IsResult chunk npages len i index baseline saved (k, x) h =
      let modulus = spare_modulus f machine chunk npages len in
      let s = record x.state { available_index = (k + index) % modulus } in
      let m = measure machine f len s in
      elim (Bool-cases (x.swapped == 0)) [
        | inl none' ↦ rw (h, none', settle) (result_of _)
        | inr kept ↦ elim (Bool-cases (f.lt m.0.0 (scaled f machine 999 1000 baseline))) [
          | inr slow ↦ rw (h, kept, slow, settle) (result_of _)
          | inl fast ↦ rw (h, kept, fast, settle) (result_of _)
        ]
      ]

  pub fixup_chunk-IsResult :
      (chunk npages len i : ℕ) (baseline chunk_baseline : D) (s : State)
      → (spare_modulus f machine chunk npages len == 0) ≡ false
      → IsResult (fixup_chunk f machine chunk npages len i baseline chunk_baseline s)
  unfolding fixup_chunk
  fixup_chunk-IsResult chunk npages len i baseline chunk_baseline s h =
      settle-IsResult chunk npages len i (start_index f machine chunk npages len s) baseline s.pages
        (replace_pages f machine chunk npages len i chunk_baseline s) h

  module _ (npages len : ℕ) where
    test_part-IsResult :
        (test : (i chunk : ℕ) (baseline t : D) → State → Option (Bool × D × State)) (j subchunk : ℕ)
        (x : Tested f machine)
        → ((baseline t : D) (s : State) → IsResult (test j subchunk baseline t s))
        → IsResult (test_part f machine npages len test j subchunk x)
    unfolding test_part
    test_part-IsResult test j subchunk x h =
        let r = remove_chunk f machine j subchunk npages len x.state in
        let r' = remove_chunk f machine j subchunk npages len r.1 in
        let t' = if f.lt r.0 r'.0 then r'.0 else r.0 in
        let (a, e) = (h x.baseline t' r'.1) in
        elim (Bool-cases (no_gain f machine r.0 x)) [
          | inl no_gain' ↦ rw (no_gain', test_part) (result_of _)
          | inr gain ↦ elim (Bool-cases (no_gain f machine t' x)) [
            | inl no_gain' ↦ rw (gain, no_gain', test_part) (result_of _)
            | inr gain' ↦ rw (gain, gain', e, test_part) (result_of _)
          ]
        ]

    test_parts-IsResult :
        (test : (i chunk : ℕ) (baseline t : D) → State → Option (Bool × D × State))
        (last rounds j subchunk bound : ℕ) (x : Tested f machine)
        → 0 < subchunk
        → subchunk ≤ bound
        → j ≤ last
        → last < j + rounds
        → ((i chunk : ℕ) (baseline t : D) (s : State)
            → 0 < chunk
            → chunk ≤ bound
            → IsResult (test i chunk baseline t s))
        → IsResult (test_parts f machine npages len test last rounds j subchunk x)
    unfolding test_parts
    test_parts-IsResult test last zero j subchunk bound x pos small before enough h =
        absurd (omega arith)
    test_parts-IsResult test last (suc rounds) j subchunk bound x pos small before enough h =
        let part = if ltb last (j + subchunk) then last - j else subchunk in
        elim (Bool-cases (leb last j)) [
          | inl done ↦ rw (done, test_parts) (result_of x)
          | inr more ↦
              let part_pos : 0 < part = ground arith in
              let part_small : part ≤ bound = ground arith in
              let inside : j + part ≤ last = ground arith in
              let (x', e) =
                (test_part-IsResult test j part x (λ b t s. h j part b t s part_pos part_small)) in
              rw (more, e, test_parts)
                (test_parts-IsResult test last rounds (j + part) part bound x' part_pos part_small
                  inside (omega arith) h)
        ]

    -- The calls of `test_chunk` and their loops end, and no division by 0 stops them, if the measured
    -- size has at least two pages and the memory has not exactly one page more than it: as many levels
    -- of calls as the chunk has pages are enough, and one round more than it has pages in each loop.
    pub test_chunk-IsResult :
        (fuel i chunk : ℕ) (baseline chunk_baseline : D) (s : State)
        → (spare_modulus f machine chunk npages len == 0) ≡ false
        → 1 < npages
        → 0 < chunk
        → chunk ≤ fuel
        → IsResult (test_chunk f machine npages len fuel i chunk baseline chunk_baseline s)
    unfolding test_chunk
    test_chunk-IsResult zero i chunk baseline chunk_baseline s h many pos enough =
        absurd (omega arith)
    test_chunk-IsResult (suc fuel) i chunk baseline chunk_baseline s h many pos enough =
        elim (Bool-cases (leb chunk 20 && ltb chunk npages)) [
          | inl fix ↦
              let (r, e) = (fixup_chunk-IsResult chunk npages len i baseline chunk_baseline s h) in
              rw (fix, e, test_chunk) (result_of _)
          | inr split ↦
              let start : Tested f machine = record {
                modified = false;
                baseline = baseline;
                nodiff = baseline;
                state = s;
              } in
              let smaller : (chunk + 19) / 20 < chunk = part_smaller chunk npages split many pos in
              let (x, e) =
                (test_parts-IsResult (test_chunk f machine npages len fuel) (i + chunk) (chunk + 1)
                  i ((chunk + 19) / 20) ((chunk + 19) / 20) start (omega arith) (omega arith)
                  (omega arith) (omega arith)
                  (λ i' c b t s' pos' le.
                    test_chunk-IsResult fuel i' c b t s' h many pos' (omega arith))) in
              rw (split, e, test_chunk) (result_of _)
        ]
