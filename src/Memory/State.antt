-- ===== src/Memory/State.antt =====
-- `struct mem_state` of lmbench3/src/lib_mem.h, and `base_initialize` and `mem_cleanup` of
-- lmbench3/src/lib_mem.c. A `size_t` has 64 bits and an `int` 32.
use native.Mathlib.Nat.{add-mod_right, mod-eq_of_lt}
use repo_support_tools.Base.{
  ℕ, ◌+◌, ◌-◌, ◌/◌, ◌%◌, ◌^◌, ◌≤◌, ◌<◌, ◌≡◌, ◌∙◌, ap, refl, arith, ltb, List, Option, none, some,
  Bool, true, false, not, ◌||◌, if◌then◌else◌, ◌==◌,
}
use repo_support_tools.Memory.Shuffle.{Environment, permutation}

-- `p` is the array of pointers that a benchmark starts from, as offsets from `base`.
pub record MemState : Type 0 where
  pub addr : Option ℕ
  pub base : ℕ
  pub initialized : Bool
  pub width : ℕ
  pub len : ℕ
  pub maxlen : ℕ
  pub line : ℕ
  pub pagesize : ℕ
  pub nlines : ℕ
  pub npages : ℕ
  pub nwords : ℕ
  pub lines : Option (List ℕ)
  pub pages : Option (List ℕ)
  pub words : Option (List ℕ)
  pub p : List ℕ

-- what the C library and the static variable of `permutation` give
pub record Environ : Type 0 where
  pub random : Environment
  pub r : ℕ
  pub calls : ℕ
  -- the address that `malloc` gives for the block, and whether there is memory for the arrays
  pub block : Option ℕ
  pub pages_memory : Bool
  pub lines_memory : Bool
  pub words_memory : Bool

abbrev pub pointer_size : ℕ
pointer_size = 8

-- `if ((unsigned long)p % pagesize) p += pagesize - (unsigned long)p % pagesize;`
unfoldable pub align : ℕ → ℕ → ℕ
align pagesize p = if p % pagesize == 0 then p else p + (pagesize - p % pagesize)

-- The `size_t` of the `int` that a `size_t` is stored in: the low 32 bits with their sign.
unfoldable pub int_u64 : ℕ → ℕ
int_u64 n = let low = n % 2 ^ 32 in if ltb low (2 ^ 31) then low else low + (2 ^ 64 - 2 ^ 32)

-- The rounds of a loop up to the `int` that a `size_t` is stored in: none where it is negative.
unfoldable pub int_rounds : ℕ → ℕ
int_rounds n = let low = n % 2 ^ 32 in if ltb low (2 ^ 31) then low else 0

-- `(n + state->pagesize - 1) / state->pagesize`
unfoldable pub count_pages : (n pagesize : ℕ) → ℕ
count_pages n pagesize = (n + pagesize + (2 ^ 64 - 1)) % 2 ^ 64 / pagesize

-- The state once the arrays are allocated: not initialized where one of them is NULL.
unfoldable pub base_finish : Option ℕ → Option (List ℕ) → MemState → MemState
unfolding align int_u64 count_pages
base_finish block pages s =
    let s' = record s {
      initialized = false;
      nwords = int_u64 (s.line / pointer_size);
      nlines = int_u64 (s.pagesize / s.line);
      npages = int_u64 (count_pages (int_u64 s.len) s.pagesize);
      lines = none;
      words = none;
      pages = pages;
      addr = block;
    } in
    elim block [
      | none ↦ s'
      | some p ↦ elim pages [
        | none ↦ s'
        | some _ ↦ record s' { base = align s.pagesize p; initialized = true }
      ]
    ]

-- `none` for a division by 0 or a `permutation` of no elements, which runs past its array.
unfoldable pub base_initialize : Environ → ℕ → MemState → Option MemState
unfolding base_finish int_u64 count_pages
base_initialize env iterations s =
    if not (iterations == 0)
    then some s
    else if s.pagesize == 0 || s.line == 0
    then none
    else elim (permutation env.random env.pages_memory (int_u64 (count_pages s.maxlen s.pagesize))
        (int_u64 s.pagesize) env.r env.calls) [
          | none ↦ none
          | some none ↦ some (base_finish env.block none s)
          | some (some shuffled) ↦ some (base_finish env.block (some shuffled.result) s)
        ]

-- `mem_cleanup`: what is freed is set to NULL.
unfoldable pub mem_cleanup : ℕ → MemState → MemState
mem_cleanup iterations s =
    if not (iterations == 0)
    then s
    else record s { addr = none; lines = none; pages = none; words = none }

-- Numbers that an `int` holds are kept.
pub int_u64_small : (n : ℕ) → n < 2 ^ 31 → int_u64 n ≡ n
unfolding int_u64
int_u64_small n h =
    let low : n % 2 ^ 32 ≡ n = mod-eq_of_lt (omega arith) in
    let positive : ltb n (2 ^ 31) ≡ true = ground arith in rw (low, positive) refl

pub int_rounds_small : (n : ℕ) → n < 2 ^ 31 → int_rounds n ≡ n
unfolding int_rounds
int_rounds_small n h =
    let low : n % 2 ^ 32 ≡ n = mod-eq_of_lt (omega arith) in
    let positive : ltb n (2 ^ 31) ≡ true = ground arith in rw (low, positive) refl

pub count_pages_small :
    (n pagesize : ℕ)
    → 0 < pagesize
    → n + pagesize ≤ 2 ^ 64
    → count_pages n pagesize ≡ (n + pagesize - 1) / pagesize
unfolding count_pages
count_pages_small n pagesize pos fits =
    let turned : n + pagesize + (2 ^ 64 - 1) ≡ n + pagesize - 1 + 2 ^ 64 = omega arith in
    ap (λ x. x / pagesize)
      (ap (λ x. x % 2 ^ 64) turned
        ∙ add-mod_right (n + pagesize - 1) (2 ^ 64)
        ∙ mod-eq_of_lt (omega arith))
