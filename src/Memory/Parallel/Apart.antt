-- ===== src/Memory/Parallel/Apart.antt =====
-- Where the chains of `par_mem` of lmbench3/src/lib_mem.c begin.
use native.Mathlib.Nat.{mul-le-mul_right, le-div_iff_mul-le, mul-div-le, mod-lt}
use repo_support_tools.Base.{ℕ, zero, suc, ◌+◌, ◌-◌, ◌*◌, ◌/◌, ◌%◌, ◌≤◌, ◌<◌, arith}
use repo_support_tools.Memory.Parallel.{chain_line, chain_word}

product_lt : (n i j q : ℕ) → j ≤ i → 0 < n → (i + 1) * q ≤ n → j * q < n
product_lt n i j zero le pos h = omega arith
product_lt n i j (suc q) le pos h = omega (arith, mul-le-mul_right (suc q) le)

page_lt :
    (len line lpp n : ℕ)
    → 0 < line
    → 0 < lpp
    → n < len / line
    → n / lpp < (len + lpp * line - 1) / (lpp * line)
page_lt len line lpp n pos pos' below =
    let page_pos : 0 < lpp * line =
      let h = mul-le-mul_right {m = 1} {n = lpp} line pos' in omega arith in
    let fits : suc n * line ≤ len =
      (le-div_iff_mul-le {k = line} {x = suc n} {y = len} pos).0 below in
    let h = mul-le-mul_right line (mul-div-le n lpp) in
    (le-div_iff_mul-le {k = lpp * line} {x = suc (n / lpp)} {y = len + lpp * line - 1} page_pos).1
      (omega (arith, h, fits))

-- If a page is a whole number of lines, and the memory has at least as many lines as there are chains,
-- every chain behind the first begins on a page, a line and a word that there are, and on a later line
-- than the chains before it.
pub chain_line_apart :
    (len line lines_per_page nwords i j j' : ℕ)
    → 0 < line
    → 0 < lines_per_page
    → 0 < nwords
    → i < len / line
    → j < j'
    → j' ≤ i
    → (chain_line len line i j' / lines_per_page
        < (len + lines_per_page * line - 1) / (lines_per_page * line))
      × (chain_line len line i j' % lines_per_page < lines_per_page)
      × (chain_word nwords i j' % nwords < nwords)
      × (chain_line len line i j < chain_line len line i j')
chain_line_apart len line lpp nwords i j j' pos pos' posw many lt le =
    let q = len / line / (i + 1) in
    let some_lines : 1 ≤ q =
      (le-div_iff_mul-le {k = i + 1} {x = 1} {y = len / line} (omega arith)).1 (omega arith) in
    let below = product_lt (len / line) i j' q le (omega arith) (mul-div-le (len / line) (i + 1)) in
    (
      page_lt len line lpp (j' * q) pos pos' below,
      mod-lt (j' * q) pos',
      mod-lt (j' * nwords / (i + 1)) posw,
      omega (arith, mul-le-mul_right {m = suc j} {n = j'} q lt, some_lines),
    )
