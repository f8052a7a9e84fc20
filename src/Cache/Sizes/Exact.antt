-- ===== src/Cache/Sizes/Exact.antt =====
-- Which sizes `collect_data` of lmbench3/src/cache.c samples, and which of them are odd.
use repo_support_tools.Base.{
  ℕ, zero, suc, ◌-◌, ◌*◌, ◌≤◌, ◌≡◌, Option, none, some, List, [], ◌∷◌, arith, leb, if◌then◌else◌,
}

-- the size with index `idx` after an increment `incr`: 4, 5, 6 or 7 increments of its octave
abbrev pub size_at : (incr idx : ℕ) → ℕ
size_at incr zero = 4 * incr
size_at incr (suc zero) = 5 * incr
size_at incr (suc (suc zero)) = 6 * incr
size_at incr (suc (suc (suc zero))) = 7 * incr
size_at incr (suc (suc (suc (suc idx)))) = size_at (incr * 2) idx

-- in an octave from 4 increments on
abbrev fits : (maxlen n : ℕ) → Option ℕ
fits maxlen n = if leb n maxlen then some n else none

fits_small : (maxlen n : ℕ) → n ≤ maxlen → fits maxlen n ≡ some n
fits_small maxlen n h = ground arith

-- the sizes from place `m` of an octave on, and what follows the octave
abbrev octave_from : (maxlen incr : ℕ) → (m : ℕ) → List ℕ → List ℕ
octave_from maxlen incr zero rest = rest
octave_from maxlen incr (suc k) rest =
    let n = (7 - k) * incr in if leb n maxlen then n ∷ octave_from maxlen incr k rest else []
