-- ===== src/Examples/Cache.antt =====
-- The cache sizes of lmbench3/src/cache.c at concrete inputs.
use repo_support_tools.Base.{
  ℕ, zero, suc, ◌+◌, ◌≤◌, ◌<◌, ◌≡◌, true, false, List, [], ◌∷◌, length, Option, none, some, refl,
  arith, leb, ltb, ◌&&◌, ◌⊎◌, if◌then◌else◌,
}
use repo_support_tools.Base.Int.{negsuc}
use repo_support_tools.Timing.Results.{save_median, insertsort, insertinit, shift, scan}
use repo_support_tools.Memory.Chain.{Cells}
use repo_support_tools.Cache.Sizes.{is_odd_size}
use repo_support_tools.Cache.Levels.{CacheResults, find_cache, levels_from}
use repo_support_tools.Cache.Levels.Found.{IsPeak, find_cache-IsPeak}
use repo_support_tools.Cache.Levels.Bounded.{IsIncreasing, levels_from-IsBounded}
use repo_support_tools.Cache.Measure.{Machine, State}
use repo_support_tools.Cache.Chunks.{scaled, fixup_chunk, remove_chunk}
use repo_support_tools.Cache.Tests.{test_chunk}
use repo_support_tools.Cache.Pages.Reordered.{IsReordered}
use repo_support_tools.Cache.Chunks.Kept.{fixup_chunk-IsReordered}
use repo_support_tools.Cache.Chunks.Removed.{remove_chunk-pages}
use repo_support_tools.Cache.Tests.Ends.{IsResult, test_chunk-IsResult, fixup_chunk-IsResult}
use repo_support_tools.Cache.Collect.{search, collect_sample, discard}
use repo_support_tools.Cache.Collect.Searched.{IsChanged, IsSafe, len_at, search_lem}
use repo_support_tools.Cache.Collect.Discarded.{is_positive, samples_left, samples_left-discard}
use repo_support_tools.Examples.Fractions.{fractions}

-- a measured size with a latency and a ratio in tenths
abbrev sample : (len latency ratio : ℕ) → CacheResults fractions
sample len latency ratio = record {
  len = len;
  maxlen = 4096;
  line = negsuc 0;
  mline = negsuc 0;
  latency = (latency, 1);
  variation = (1, 1);
  ratio = (ratio, 10);
  slope = (0, 1);
}

-- the latency jumps behind 768, the size with index 2
abbrev samples : List (CacheResults fractions)
samples =
    sample 512 1 10 ∷ sample 640 1 10 ∷ sample 768 1 90 ∷ sample 896 9 10 ∷ sample 1024 9 10 ∷ []

find_cache-IsPeak_example : IsPeak fractions samples 0 5 2
unfolding find_cache
find_cache-IsPeak_example = find_cache-IsPeak fractions samples 0 5 2 refl (omega arith) refl

levels_from-IsBounded_example :
    IsIncreasing 0 5 (levels_from fractions samples 5 5 0)
    × (length (levels_from fractions samples 5 5 0) ≤ 5)
    × (levels_from fractions samples 5 6 0 ≡ levels_from fractions samples 5 5 0)
levels_from-IsBounded_example = levels_from-IsBounded fractions samples 5 refl

levels_found : levels_from fractions samples 5 5 0 ≡ 2 ∷ []
unfolding levels_from is_odd_size
levels_found = refl

abbrev latencies : List ((ℕ × ℕ) × ℕ)
latencies = ((3, 1), 0) ∷ ((1, 2), 4096) ∷ ((2, 1), 8192) ∷ []

-- Six pages of 4096 bytes with lines of 2048 bytes. A run that follows twelve pointers takes ten times
-- as long where it comes to the page at 8192.
abbrev follow : (k : ℕ) → Cells → (p : ℕ) → ℕ
follow zero cells p = 10
follow (suc k) cells p =
    let rest = follow k cells (cells p) in if leb 8192 p && ltb p 12288 then 100 else rest

abbrev machine : Machine
machine = record {
  pagesize = 4096;
  maxlen = 24576;
  line = 2048;
  nlines = 2;
  nwords = 1;
  lines = 0 ∷ 2048 ∷ [];
  words = 0 ∷ [];
  room = record { count = 0; v = record { u = 0; n = 0 } ∷ record { u = 0; n = 0 } ∷ [] };
  runs = λ calls cells p. record { u = follow 12 cells p; n = 1 } ∷ [];
}

abbrev state : State
state = record {
  pages = 0 ∷ 4096 ∷ 8192 ∷ 12288 ∷ 16384 ∷ 20480 ∷ [];
  cells = λ p. p + 2048;
  available_index = 0;
  calls = 0;
}

remove_chunk-pages_example :
    (remove_chunk fractions machine 1 2 4 16384 state).1.pages ≡ state.pages
remove_chunk-pages_example = remove_chunk-pages fractions machine 1 2 4 16384 state (omega arith)

test_chunk-IsResult_example :
    IsResult (test_chunk fractions machine 3 12288 3 0 3 (1000, 1) (0, 1) state)
test_chunk-IsResult_example =
    test_chunk-IsResult fractions machine 3 12288 3 0 3 (1000, 1) (0, 1) state refl (omega arith)
      (omega arith) (omega arith)

-- the page at 8192 alone, with its baseline and that of the other three pages
abbrev fixed : IsResult (fixup_chunk fractions machine 1 4 16384 2 (100000, 100) (10000, 100) state)
fixed = fixup_chunk-IsResult fractions machine 1 4 16384 2 (100000, 100) (10000, 100) state refl

fixup_chunk-IsReordered_example :
    ((fixed.0.0 ≡ 0) × (fixed.0.1 ≡ (100000, 100)))
    ⊎ (IsReordered state.pages fixed.0.2.pages
        × (fractions.lt fixed.0.1 (scaled fractions machine 999 1000 (100000, 100)) ≡ true))
fixup_chunk-IsReordered_example =
    fixup_chunk-IsReordered fractions machine 1 4 16384 state.pages (omega arith) (omega arith)
      (omega arith) (omega arith) 2 (100000, 100) (10000, 100) state fixed.0.0 fixed.0.1 fixed.0.2
      refl (omega arith) fixed.1

abbrev swapped_of : Option (ℕ × (ℕ × ℕ) × State) → Option ℕ
swapped_of none = none
swapped_of (some r) = some r.0

-- it is replaced
fixup_chunk_swaps :
    swapped_of (fixup_chunk fractions machine 1 4 16384 2 (100000, 100) (10000, 100) state) ≡ some 1
unfolding fixup_chunk save_median insertsort insertinit shift scan
fixup_chunk_swaps = refl

-- Of three sizes the one in the middle is measured.
abbrev sizes : List (CacheResults fractions)
sizes = sample 4096 1 10 ∷ sample 8192 0 10 ∷ sample 12288 9 10 ∷ []

IsSafe-sizes : (i : ℕ) → 0 < i → i < 2 → IsSafe fractions machine (len_at fractions machine sizes i)
IsSafe-sizes zero lo hi = absurd (omega arith)
IsSafe-sizes (suc zero) lo hi = λ many. refl
IsSafe-sizes (suc (suc i)) lo hi = absurd (omega arith)

search_lem_example :
    (p' : List (CacheResults fractions)) × (s' : State) × (search fractions machine
        (collect_sample fractions machine)
        2
        0
        2
        (sizes, state)
      ≡ some (p', s'))
    × IsChanged fractions machine 0 2 sizes p'
search_lem_example = search_lem fractions machine 0 2 sizes state (omega arith) IsSafe-sizes

-- The largest size is not measured well: one sample is left.
abbrev bad : List (CacheResults fractions)
bad = sample 512 3 10 ∷ sample 640 0 10 ∷ sample 768 0 10 ∷ []

not_positive : (i : ℕ) → 0 < i → i ≤ 2 → is_positive fractions machine bad i ≡ false
not_positive zero lo hi = absurd (omega arith)
not_positive (suc zero) lo hi = refl
not_positive (suc (suc zero)) lo hi = refl
not_positive (suc (suc (suc i))) lo hi = absurd (omega arith)

samples_left-discard_example :
    samples_left fractions machine (discard fractions machine 3 (bad, state)) ≡ some 1
samples_left-discard_example = samples_left-discard fractions machine 2 (bad, state) not_positive
