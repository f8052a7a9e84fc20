-- ===== src/Memory/Chain.antt =====
-- Pointer chains in the memory that the initializers of lmbench3/src/lib_mem.c lay out. A pointer
-- is its offset from `state->base`, and a cell is the word at an offset.
pub mod Ring
use repo_support_tools.Base.{ℕ, zero, suc, ◌+◌, ◌*◌, ◌==◌, if◌then◌else◌}

abbrev pub Cells : Type 0
Cells = ℕ → ℕ

-- `*(char**)(base + p) = base + v`
abbrev pub store : ℕ → ℕ → Cells → Cells
store p v cells q = if p == q then v else cells q

-- `n` times `p = (char**)*p`
unfoldable pub deref : Cells → ℕ → ℕ → ℕ
deref cells zero p = p
deref cells (suc n) p = deref cells n (cells p)

-- The loop of `mem_benchmark_0`: a hundred dereferences for each iteration. The result is the
-- pointer that `SAVE` keeps.
unfoldable pub mem_benchmark_0 : ℕ → Cells → ℕ → ℕ
unfolding deref
mem_benchmark_0 zero cells p = p
mem_benchmark_0 (suc iterations) cells p = mem_benchmark_0 iterations cells (deref cells 100 p)
