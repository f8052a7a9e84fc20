-- ===== src/Memory/Words.antt =====
-- `words_initialize` of lmbench3/src/lib_mem.c: the order in which the words of a line, or the lines
-- of a page, are used.
pub mod Order
use repo_support_tools.Base.{
  ℕ, zero, suc, ◌+◌, ◌*◌, ◌/◌, ◌%◌, ◌^◌, List, [], ◌∷◌, Option, none, some, Bool, true, false,
  if◌then◌else◌,
}
use repo_support_tools.Bits.{count_bits, reverse_loop}

-- the `for` over `i`, with `k` rounds left
unfoldable pub words_from : (nbits scale i k : ℕ) → List ℕ
words_from nbits scale i zero = []
words_from nbits scale i (suc k) =
    (reverse_loop i nbits 0 0 * scale % 2 ^ 64) ∷ words_from nbits scale (i + 1) k

-- `alloc` is what `malloc` does: with no memory the result is NULL. For fewer than 2^32 words: with
-- more, `1<<j` shifts the `int` too far.
unfoldable pub words_initialize : Bool → ℕ → ℕ → Option (List ℕ)
unfolding words_from
words_initialize alloc max scale =
    let nbits = count_bits (max / 2) 0 in
    if alloc then some (words_from nbits scale 0 max) else none
