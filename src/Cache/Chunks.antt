-- ===== src/Cache/Chunks.antt =====
-- `remove_chunk` and `fixup_chunk` of lmbench3/src/cache.c: the search for pages that
-- collide with others in a cache, and for others in their place. The measured size has at most as
-- many pages as the whole memory. `size_t` has 8 bytes, the lower first.
pub mod Slices
pub mod Loops
pub mod Kept
pub mod Removed
use repo_support_tools.Base.{
  ℕ, zero, suc, ◌+◌, ◌-◌, ◌*◌, ◌/◌, ◌%◌, Bool, true, false, ◌&&◌, ◌||◌, not, List, [], ◌∷◌, ◌++◌,
  map, Option, none, some, get_or, set, take, drop, replicate, ltb, leb, ◌==◌, if◌then◌else◌,
}
use repo_support_tools.Doubles.{Doubles}
use repo_support_tools.Memory.Shuffle.{swap}
use repo_support_tools.Cache.Pages.{pagesort, exchange_ends, exchange_tail}
use repo_support_tools.Cache.Measure.{Machine, State, measure}

abbrev pub zip {ℓ κ} : {A : Type ℓ} {B : Type κ} → List A → List B → List (A × B)
zip [] bs = []
zip (a ∷ as') [] = []
zip (a ∷ as') (b ∷ bs) = (a, b) ∷ zip as' bs

-- `s` with other pages
abbrev pub with_pages : State → List ℕ → State
with_pages s pages = record s { pages = pages }

module _ (f : Doubles) (machine : Machine) where
  open f use {D, of_ℕ, mul, div, lt}
  open machine use {pagesize, maxlen}

  -- `n / d * x`, for the factors that are written as decimals
  abbrev pub scaled : (n d : ℕ) → D → D
  scaled n d x = mul (div (of_ℕ n) (of_ℕ d)) x

  unfoldable pub remove_chunk : (i chunk npages len : ℕ) → State → D × State
  unfolding exchange_ends measure
  remove_chunk i chunk npages len s =
      let inside = ltb (i + chunk) npages in
      let removed = if inside then exchange_ends i npages chunk 0 s.pages else s.pages in
      let (t, s') = measure machine f (len - chunk * pagesize) (with_pages s removed) in
      let restored = if inside then exchange_ends i npages chunk 0 s'.pages else s'.pages in
      (t.0, with_pages s' restored)

  -- `0.995 * t <= chunk_baseline`
  abbrev pub is_kept : (t chunk_baseline : D) → Bool
  is_kept t chunk_baseline = not (lt chunk_baseline (scaled 995 1000 t))

  -- what the loops of `fixup_chunk` change: how many pages are kept, how many of them are others than
  -- before, the latencies, and the state
  pub record Fixup : Type 0 where
    pub kept : ℕ
    pub swapped : ℕ
    pub latencies : List D
    pub state : State

  module _ (chunk npages len : ℕ) where
    -- the place of the page `j` of the chunk
    abbrev pub chunk_page : ℕ → ℕ
    chunk_page j = npages - chunk + j

    -- `pagesort(chunk - j, &pages[npages - chunk + j], &latencies[j])`
    unfoldable pub sort_rest : Fixup → Fixup
    unfolding pagesort
    sort_rest x =
        let n = chunk - x.kept in
        let start = chunk_page x.kept in
        let pages = x.state.pages in
        let sorted =
          pagesort f (zip (take n (drop x.kept x.latencies)) (take n (drop start pages))) in
        record x {
          latencies =
              take x.kept x.latencies ++ map (λ y. y.0) sorted ++ drop n (drop x.kept x.latencies);
          state =
              with_pages x.state
                (take start pages ++ map (λ y. y.1) sorted ++ drop n (drop start pages));
        }

    -- `for (j = 0, k = chunk; j < k; )` with `k - j` rounds left
    unfoldable pub keep_pages : (chunk_baseline : D) (rounds : ℕ) → Fixup → Fixup
    unfolding measure swap
    keep_pages chunk_baseline zero x = x
    keep_pages chunk_baseline (suc rounds) x =
        let j = x.kept in
        let (m, s) = measure machine f ((chunk_page j + 1) * pagesize) x.state in
        let k = j + rounds in
        let next : Fixup =
          if is_kept m.0 chunk_baseline
          then record x { kept = suc j; latencies = set x.latencies j m.0; state = s }
          else record x {
            latencies = set x.latencies k m.0;
            state = with_pages s (swap (chunk_page j) (chunk_page k) s.pages);
          } in
        keep_pages chunk_baseline rounds next

    -- `nsparepages - 1` without its sign, which does not change a remainder
    abbrev pub spare_modulus : ℕ
    spare_modulus =
        let ntotalpages = maxlen / pagesize in
        if leb (npages + 1) ntotalpages then ntotalpages - npages - 1 else npages + 1 - ntotalpages

    -- the index of `pageset[substitute]` in `pages`
    abbrev pub substitute_page : (available_index k : ℕ) → ℕ
    substitute_page available_index k =
        maxlen / pagesize - 1 - (k + available_index) % spare_modulus

    -- a round of the loop over `k`
    unfoldable pub try_substitute : (chunk_baseline : D) (k : ℕ) → Fixup → Fixup
    unfolding measure swap sort_rest
    try_substitute chunk_baseline k x =
        let j = x.kept in
        let original = chunk_page j in
        let substitute = substitute_page x.state.available_index k in
        let subset_len =
          if (j == chunk - 1) && not (len % pagesize == 0)
          then len
          else (original + 1) * pagesize in
        let tried = swap original substitute x.state.pages in
        let (m, s) = measure machine f subset_len (with_pages x.state tried) in
        let s' = with_pages s (swap original substitute s.pages) in
        let faster = lt m.0 (get_or x.latencies (chunk - 1) (of_ℕ 0)) in
        let replaced : Fixup =
          if faster
          then sort_rest (record x {
            latencies = set x.latencies (chunk - 1) m.0;
            state = with_pages s' (swap (npages - 1) substitute s'.pages);
          })
          else record x { state = s' } in
        if is_kept (get_or replaced.latencies j (of_ℕ 0)) chunk_baseline
        then record replaced { kept = suc j; swapped = suc replaced.swapped }
        else replaced

    -- the loop over `k`, with `rounds` left: the last `k` too
    unfoldable pub substitute_pages : (chunk_baseline : D) (rounds k : ℕ) → Fixup → ℕ × Fixup
    unfolding try_substitute
    substitute_pages chunk_baseline zero k x = (k, x)
    substitute_pages chunk_baseline (suc rounds) k x =
        let rest =
          substitute_pages chunk_baseline rounds (suc k) (try_substitute chunk_baseline k x) in
        if leb chunk x.kept then (k, x) else rest

    -- `if (chunk >= npages && j < chunk / 2)`
    unfoldable pub keep_half : (chunk_baseline : D) → Fixup → D × Fixup
    unfolding measure
    keep_half chunk_baseline x =
        let j = chunk / 2 in
        let (m, s) = measure machine f ((chunk_page j + 1) * pagesize) x.state in
        if leb npages chunk && ltb x.kept j
        then (m.0, record x { kept = j; state = s })
        else (chunk_baseline, x)

    -- the pages that `bcopy` saves and puts back: half of them, where an `int` has half the bytes
    abbrev pub saved_pages : ℕ
    saved_pages = (maxlen / pagesize + 1) / 2

    -- From `available_index = ...` on, with the last `k` and the index before it: `none` for a division
    -- by 0. The result is `swapped`, the baseline and the state.
    unfoldable pub settle :
        (i index : ℕ) (baseline : D) (saved : List ℕ) → ℕ × Fixup → Option (ℕ × D × State)
    unfolding exchange_tail measure
    settle i index baseline saved (k, x) =
        let s = record x.state { available_index = (k + index) % spare_modulus } in
        let (m, measured) = measure machine f len s in
        let backed_out =
          with_pages measured (take saved_pages saved ++ drop saved_pages measured.pages) in
        let back =
          if ltb (i + chunk) npages
          then exchange_tail i npages chunk chunk 0 measured.pages
          else measured.pages in
        if spare_modulus == 0
        then none
        else if x.swapped == 0
        then some (0, baseline, s)
        else if lt m.0 (scaled 999 1000 baseline)
        then some (x.swapped, m.0, with_pages measured back)
        else some (0, baseline, backed_out)

    -- `if (available_index >= nsparepages) available_index = 0;`
    abbrev pub start_index : State → ℕ
    start_index s =
        if leb (maxlen / pagesize - npages) s.available_index then 0 else s.available_index

    -- the part of `fixup_chunk` before that: the last `k`, and what its loops change
    unfoldable pub replace_pages : (i : ℕ) (chunk_baseline : D) → State → ℕ × Fixup
    unfolding keep_pages sort_rest keep_half substitute_pages exchange_tail
    replace_pages i chunk_baseline s =
        let moved =
          if ltb (i + chunk) npages
          then exchange_tail i npages chunk chunk 0 s.pages
          else s.pages in
        let start : Fixup = record {
          kept = 0;
          swapped = 0;
          latencies = replicate 20 (of_ℕ 0);
          state = record s { pages = moved; available_index = start_index s };
        } in
        let (bound, half) =
          keep_half chunk_baseline (sort_rest (keep_pages chunk_baseline chunk start)) in
        substitute_pages bound (2 * npages) 0 half

    unfoldable pub fixup_chunk :
        (i : ℕ) (baseline chunk_baseline : D) → State → Option (ℕ × D × State)
    unfolding replace_pages settle
    fixup_chunk i baseline chunk_baseline s =
        settle i (start_index s) baseline s.pages (replace_pages i chunk_baseline s)
