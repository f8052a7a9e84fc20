-- ===== src/Memory/Shuffle.antt =====
-- `permutation` of lmbench3/src/lib_timing.c: a random order of the multiples of `scale`.
pub mod Distinct
pub mod Rearranges
use Prim.Native.Nat.{bit_xor}
use repo_support_tools.Base.{
  ℕ, zero, suc, ◌+◌, ◌-◌, ◌*◌, ◌/◌, ◌%◌, ◌^◌, List, [], ◌∷◌, Option, none, some, Bool, true, false,
  not, if◌then◌else◌, ◌==◌, get_or, set,
}

-- what `getpid`, `getppid` and the successive calls of `rand` give
pub record Environment : Type 0 where
  pub pid : ℕ
  pub ppid : ℕ
  pub rand : ℕ → ℕ

-- `result[i] = i * (size_t)scale`, with `k` rounds left
unfoldable pub multiples : (scale i k : ℕ) → List ℕ
multiples scale i zero = []
multiples scale i (suc k) = (i * scale % 2 ^ 64) ∷ multiples scale (i + 1) k

-- `v = result[j]; result[j] = result[i]; result[i] = v;`
unfoldable pub swap : ℕ → ℕ → List ℕ → List ℕ
swap i j result = let v = get_or result j 0 in set (set result j (get_or result i 0)) i v

-- the static variable `r`, the number of calls of `rand` so far, and the array
pub record Shuffle : Type 0 where
  pub r : ℕ
  pub calls : ℕ
  pub result : List ℕ

module _ (env : Environment) where
  open env use {pid, ppid, rand}

  -- `r = (getpid()<<6) ^ getppid() ^ rand() ^ (rand()<<10);`
  unfoldable pub seed : ℕ → ℕ → ℕ × ℕ
  seed r calls =
      if r == 0
      then (
        bit_xor (bit_xor (bit_xor (pid * 2 ^ 6) ppid) (rand calls)) (rand (calls + 1) * 2 ^ 10)
            % 2 ^ 64,
        calls + 2,
      )
      else (r, calls)

  -- the `for` that randomizes, from index `i` down to 1
  unfoldable pub shuffle : ℕ → Shuffle → Shuffle
  shuffle zero s = s
  shuffle (suc i) s =
      let r = bit_xor (s.r * 2 % 2 ^ 64) (rand s.calls) in
      shuffle i
        (record { r = r; calls = s.calls + 1; result = swap (suc i) (r % (suc i + 1)) s.result })

  -- `permutation(max, scale)` with the static `r`; `none` where `max` is 0 and the loop runs past the
  -- array, and `some none` for NULL.
  unfoldable pub permutation : Bool → ℕ → ℕ → ℕ → ℕ → Option (Option Shuffle)
  permutation alloc max scale r calls =
      let (r', calls') = seed r calls in
      let start : Shuffle = record { r = r'; calls = calls'; result = multiples scale 0 max } in
      if not alloc
      then some none
      else if max == 0
      then none
      else some (some (shuffle (max - 1) start))
