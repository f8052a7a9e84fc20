-- ===== src/Cache/Sizes.antt =====
-- The sizes that `collect_data` of lmbench3/src/cache.c samples: four in each octave, up to a maximum.
-- The sizes are far below 2^31, so that no `int` overflows.
pub mod Exact
use repo_support_tools.Base.{
  ℕ, zero, suc, ◌+◌, ◌*◌, ◌/◌, Bool, ◌||◌, List, [], ◌∷◌, ◌++◌, leb, ltb, ◌==◌, if◌then◌else◌,
}

-- `for (i = 0; i < 4 && len <= maxlen; ++i, len += incr) samples++;` with `k` rounds left: the count
-- and the length
unfoldable pub count_octave : (maxlen incr k len samples : ℕ) → ℕ × ℕ
count_octave maxlen incr zero len samples = (samples, len)
count_octave maxlen incr (suc k) len samples =
    let rest = count_octave maxlen incr k (len + incr) (samples + 1) in
    if leb len maxlen then rest else (samples, len)

-- `for (...; len <= maxlen; incr<<=1)` around it, on fuel
unfoldable pub count_samples : (maxlen fuel incr len samples : ℕ) → ℕ
unfolding count_octave
count_samples maxlen zero incr len samples = samples
count_samples maxlen (suc fuel) incr len samples =
    let octave = count_octave maxlen incr 4 len samples in
    let rest = count_samples maxlen fuel (incr * 2) octave.1 octave.0 in
    if leb len maxlen then rest else samples

-- the same loops once more, with the lengths that they store
unfoldable pub fill_octave : (maxlen incr k len : ℕ) → List ℕ × ℕ
fill_octave maxlen incr zero len = ([], len)
fill_octave maxlen incr (suc k) len =
    let rest = fill_octave maxlen incr k (len + incr) in
    if leb len maxlen then (len ∷ rest.0, rest.1) else ([], len)

unfoldable pub fill_samples : (maxlen fuel incr len : ℕ) → List ℕ
unfolding fill_octave
fill_samples maxlen zero incr len = []
fill_samples maxlen (suc fuel) incr len =
    let octave = fill_octave maxlen incr 4 len in
    let rest = octave.0 ++ fill_samples maxlen fuel (incr * 2) octave.1 in
    if leb len maxlen then rest else []

-- `for (c = r[i].len; c > 0x7; c >>= 1);` on fuel: the three top bits of a size
unfoldable pub top_bits : (fuel c : ℕ) → ℕ
top_bits zero c = c
top_bits (suc fuel) c = let rest = top_bits fuel (c / 2) in if ltb 7 c then rest else c

-- a size that caches "never" have
unfoldable pub is_odd_size : ℕ → Bool
unfolding top_bits
is_odd_size len = let c = top_bits len len in (c == 5) || (c == 7)
