-- ===== src/Bits.antt =====
-- The bit reversal that lmbench3/src/lib_mem.c (`words_initialize`) and lmbench3/src/lib_sched.c
-- (`reverse_bits`) both write out, and the count of bits by repeated `>> 1`.
pub mod Reversal
use repo_support_tools.Base.{
  ℕ, zero, suc, ◌+◌, ◌-◌, ◌*◌, ◌/◌, ◌%◌, ◌^◌, ◌<◌, ◌==◌, if◌then◌else◌, arith, dec_lt,
}

-- `for (; i != 0; i >>= 1, nbits++);` on fuel: `i` rounds are enough, since `i` falls.
unfoldable pub count_bits_fuel : (fuel i nbits : ℕ) → ℕ
count_bits_fuel zero i nbits = nbits
count_bits_fuel (suc fuel) i nbits =
    let rest = count_bits_fuel fuel (i / 2) (nbits + 1) in if i == 0 then nbits else rest

unfoldable pub count_bits : ℕ → ℕ → ℕ
unfolding count_bits_fuel
count_bits i nbits = count_bits_fuel i i nbits

-- `for (; j < nbits; j++) if (i & (1<<j)) r |= (1<<(nbits-j-1));` with `k` rounds left, so that
-- `nbits - j - 1` is `k - 1`. Each round sets another bit of `r`: the `|=` is an addition.
unfoldable pub reverse_loop : (i k j r : ℕ) → ℕ
reverse_loop i zero j r = r
reverse_loop i (suc k) j r = reverse_loop i k (j + 1) (if i / 2 ^ j % 2 == 1 then r + 2 ^ k else r)
