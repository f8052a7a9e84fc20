-- ===== src/Memory/Parallel.antt =====
-- `par_mem` of lmbench3/src/lib_mem.c: how many chains through a part of memory go on at the same time.
pub mod Apart
use repo_support_tools.Base.{
  ℕ, zero, suc, ◌+◌, ◌-◌, ◌*◌, ◌/◌, ◌%◌, List, [], ◌∷◌, Option, none, some, Bool, get_or, ltb, ◌==◌,
  if◌then◌else◌,
}
use repo_support_tools.Doubles.{Doubles}
use repo_support_tools.Timing.Results.{Results, Value, collect, insertinit, save_median}

-- `for (state->addr = NULL; !state->addr && len; )` on fuel, where `block` tells whether there is memory
-- for a size: 0 if there is none
unfoldable pub find_block : (block : ℕ → Bool) → (fuel len : ℕ) → ℕ
find_block block zero len = 0
find_block block (suc fuel) len =
    let rest = find_block block fuel (len / 2) in
    if len == 0 then 0 else if block len then len else rest

-- the number of the line where the chain `j` of `i + 1` begins, and of its word
abbrev pub chain_line : (len line i j : ℕ) → ℕ
chain_line len line i j = j * (len / line / (i + 1))

abbrev pub chain_word : (nwords i j : ℕ) → ℕ
chain_word nwords i j = j * nwords / (i + 1)

module _ (pages lines words : List ℕ) (pagesize line nwords : ℕ) where
  -- `state->p[j]`
  unfoldable pub chain_start : (len i j : ℕ) → ℕ
  chain_start len i j =
      let n = chain_line len line i j in
      let lines_per_page = pagesize / line in
      get_or pages (n / lines_per_page) 0
      + get_or lines (n % lines_per_page) 0
      + get_or words (chain_word nwords i j % nwords) 0

  -- `for (j = 0; j <= i; j++)` from `j` on, with `k` rounds left
  unfoldable pub chain_starts : (len i k j : ℕ) → List ℕ
  unfolding chain_start
  chain_starts len i zero j = []
  chain_starts len i (suc k) j = chain_start len i j ∷ chain_starts len i k (suc j)

  module _ (f : Doubles) (room : Results) (runs : (starts : List ℕ) → List Value) where
    open f use {D, of_ℕ, div, lt}

    -- what `gettime` and `get_n` give for the chains from these starts
    unfoldable pub chain_time : List ℕ → Value
    chain_time starts = save_median (collect f (runs starts) (insertinit room))

    -- the loop over `i` behind its first round, with `k` rounds left
    unfoldable pub par_loop : (baseline : D) (len k i : ℕ) (max_par : D) → D
    unfolding chain_starts chain_time
    par_loop baseline len zero i max_par = max_par
    par_loop baseline len (suc k) i max_par =
        let v = chain_time (chain_starts len i (i + 1) 0) in
        let par = div baseline (div (of_ℕ v.u) (of_ℕ ((i + 1) * v.n))) in
        let max_par' = if ltb 0 v.u then (if lt max_par par then par else max_par) else max_par in
        par_loop baseline len k (suc i) max_par'

    -- `par_mem` with memory for `len` bytes; MAX_MEM_PARALLELISM is 16.
    unfoldable pub par_mem : (len : ℕ) → D
    unfolding par_loop
    par_mem len =
        let v = chain_time (chain_starts len 0 1 0) in
        par_loop (div (of_ℕ v.u) (of_ℕ v.n)) len 15 1 (of_ℕ 1)
