-- ===== src/Memory/Line/Ready.antt =====
-- `base_initialize` of lmbench3/src/lib_mem.c where nothing fails, with the counts that it stores.
use native.Mathlib.Nat.{
  mul-le-mul_left, mul-le-mul_right, mul-div_cancel, mod-lt, div-add-mod', pow-le-pow_right,
  le-div_iff_mul-le,
}
use mathlib.Core.List.{Perm}
use mathlib.Core.Path.{subst}
use repo_support_tools.Base.{
  ℕ, ◌+◌, ◌-◌, ◌*◌, ◌/◌, ◌^◌, ◌≤◌, ◌<◌, ◌≡◌, sym, ap, ◌∙◌, List, some, true, false, ◌==◌, Option,
  none, [], arith, div_mono, length,
}
use repo_support_tools.Memory.State.{
  MemState, Environ, base_initialize, base_finish, int_u64, count_pages, int_u64_small,
  count_pages_small,
}
use repo_support_tools.Memory.Shuffle.{Shuffle, multiples, permutation}
use repo_support_tools.Memory.Shuffle.Rearranges.{permutation-perm}
use repo_support_tools.Memory.Shuffle.Distinct.{IsLayout, permutation-IsLayout}

-- What the initializers ask of a state and of the environment: a page of 2^k lines, a length that
-- is not 0, sizes and a number of pages that an `int` holds, and memory.
pub record IsReady (env : Environ) (s : MemState) (k block : ℕ) : Type 0 where
  pub line_pos : 0 < s.line
  pub page : s.pagesize ≡ 2 ^ k * s.line
  pub len_pos : 0 < s.len
  pub len_le : s.len ≤ s.maxlen
  pub len_int : s.len < 2 ^ 31
  pub page_int : s.pagesize < 2 ^ 31
  pub pages_int : (s.maxlen + s.pagesize - 1) / s.pagesize < 2 ^ 31
  pub pointers : 0 < length s.p
  pub has_block : env.block ≡ some block
  pub has_pages : env.pages_memory ≡ true
  pub has_lines : env.lines_memory ≡ true

-- the array of a `permutation` that succeeds
abbrev result_of : Option (Option Shuffle) → List ℕ
result_of none = []
result_of (some none) = []
result_of (some (some found)) = found.result

module _ (env : Environ) (s : MemState) (k block : ℕ) (ready : IsReady env s k block) where
  open ready use {
    line_pos, page, len_pos, len_le, len_int, page_int, pages_int, pointers, has_block, has_pages,
    has_lines,
  }

  pub some_line : 0 < 2 ^ k
  some_line = pow-le-pow_right {n = 2} (omega arith) {i = 0} {j = k} (omega arith)

  pagesize_pos : 0 < s.pagesize
  pagesize_pos = rw page (omega (arith, mul-le-mul_right {m = 1} {n = 2 ^ k} s.line some_line))

  abbrev pub nmpages : ℕ
  nmpages = (s.maxlen + s.pagesize - 1) / s.pagesize

  nmpages_pos : 0 < nmpages
  nmpages_pos = (le-div_iff_mul-le pagesize_pos).1 (omega arith)

  fits : nmpages * s.pagesize ≤ 2 ^ 64
  fits =
      omega (arith, page_int, mul-le-mul_right {m = nmpages} {n = 2 ^ 31} s.pagesize (omega arith))

  sum_fits : s.maxlen + s.pagesize ≤ 2 ^ 63
  sum_fits =
      let most = mul-le-mul_right {m = nmpages} {n = 2 ^ 31} s.pagesize (omega arith) in
      omega (
        arith,
        page_int,
        most,
        div-add-mod' (s.maxlen + s.pagesize - 1) s.pagesize,
        mod-lt (s.maxlen + s.pagesize - 1) pagesize_pos,
      )

  nmpages-int : int_u64 (count_pages s.maxlen s.pagesize) ≡ nmpages
  nmpages-int =
      ap int_u64 (count_pages_small s.maxlen s.pagesize pagesize_pos (omega (arith, sum_fits)))
      ∙ int_u64_small nmpages pages_int

  -- The pages of `permutation`: a layout, and all of them.
  permutation-made :
      (found : Shuffle) × (permutation env.random true nmpages s.pagesize env.r env.calls
        ≡ some (some found))
      × IsLayout s.pagesize nmpages found.result
      × Perm found.result (multiples s.pagesize 0 nmpages)
  permutation-made =
      let (found, made, layout) =
        permutation-IsLayout env.random s.pagesize nmpages pagesize_pos fits env.r env.calls
          nmpages_pos in
      let (found', made', all) =
        permutation-perm env.random nmpages s.pagesize env.r env.calls nmpages_pos in
      let same : found'.result ≡ found.result = ap result_of (sym made' ∙ made) in
      (found, made, layout, subst (λ l. Perm l (multiples s.pagesize 0 nmpages)) same all)

  -- `base_initialize` succeeds, with a layout of pages.
  pub base_initialize-made :
      (pages : List ℕ) × (base_initialize env 0 s ≡ some (base_finish (some block) (some pages) s))
      × IsLayout s.pagesize nmpages pages
      × Perm pages (multiples s.pagesize 0 nmpages)
  unfolding base_initialize
  base_initialize-made =
      let (found, made, layout, all) = permutation-made in
      let page_some : (s.pagesize == 0) ≡ false = (let pp = pagesize_pos in ground arith) in
      let line_some : (s.line == 0) ≡ false = ground arith in
      (
        found.result,
        rw (
          page_some,
          line_some,
          has_pages,
          nmpages-int,
          int_u64_small s.pagesize page_int,
          made,
          has_block,
        ),
        layout,
        all,
      )

  nlines-pow : s.pagesize / s.line ≡ 2 ^ k
  nlines-pow = rw page (mul-div_cancel (2 ^ k) line_pos)

  pub lines_few : 2 ^ k < 2 ^ 31
  lines_few = omega (arith, page_int, page, mul-le-mul_left {m = 1} {n = s.line} (2 ^ k) line_pos)

  pub nlines-int : int_u64 (s.pagesize / s.line) ≡ 2 ^ k
  nlines-int = ap int_u64 nlines-pow ∙ int_u64_small (2 ^ k) lines_few

  pub line-int : int_u64 s.line ≡ s.line
  line-int =
      int_u64_small s.line
        (omega (arith, page_int, page, mul-le-mul_right {m = 1} {n = 2 ^ k} s.line some_line))

  abbrev pub npages : ℕ
  npages = (s.len + s.pagesize - 1) / s.pagesize

  pub npages-le : npages ≤ nmpages
  npages-le =
      div_mono (s.len + s.pagesize - 1) (s.maxlen + s.pagesize - 1) s.pagesize pagesize_pos
        (omega arith)

  pub npages-int : int_u64 (count_pages (int_u64 s.len) s.pagesize) ≡ npages
  npages-int =
      ap (λ n. int_u64 (count_pages n s.pagesize)) (int_u64_small s.len len_int)
      ∙ ap int_u64 (count_pages_small s.len s.pagesize pagesize_pos (omega (arith, sum_fits)))
      ∙ int_u64_small npages (omega (arith, npages-le))

  pub page_fits : 2 ^ k * s.line ≤ 2 ^ 64
  page_fits =
      rw (← page)
        (omega (arith, fits, mul-le-mul_right {m = 1} {n = nmpages} s.pagesize nmpages_pos))
