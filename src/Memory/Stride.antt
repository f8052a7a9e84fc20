-- ===== src/Memory/Stride.antt =====
-- `stride_initialize` of lmbench3/src/lib_mem.c: one pointer every `stride` bytes. The stride is at
-- least the size of a pointer, so that no two words overlap.
pub mod Visits
use repo_support_tools.Base.{
  ℕ, zero, suc, ◌+◌, ◌-◌, ◌<◌, Bool, true, false, ltb, not, Option, none, some, set, if◌then◌else◌,
}
use repo_support_tools.Memory.Chain.{Cells, store}
use repo_support_tools.Memory.State.{MemState, Environ, base_initialize}

-- `for (i = stride; i < range; i += stride)`, on fuel: the index that the loop leaves, and the memory
unfoldable pub stride_loop : (fuel range stride i : ℕ) → Cells → ℕ × Cells
stride_loop zero range stride i cells = (i, cells)
stride_loop (suc fuel) range stride i cells =
    let rest = stride_loop fuel range stride (i + stride) (store (i - stride) i cells) in
    if ltb i range then rest else (i, cells)

-- The memory after the loop and the store behind it. `range` rounds of fuel are enough for a stride
-- that is not 0.
unfoldable pub stride_layout : (range stride : ℕ) → Cells → Cells
unfolding stride_loop
stride_layout range stride cells =
    let (i, cells') = stride_loop range range stride stride cells in store (i - stride) 0 cells'

-- The handler. `range` and `stride` are read before `base_initialize`, which leaves them alone.
unfoldable pub stride_initialize : Environ → ℕ → MemState → Cells → Option (MemState × Cells)
stride_initialize env iterations s cells = elim (base_initialize env iterations s) [
  | none ↦ none
  | some b ↦
      if not b.initialized
      then some (b, cells)
      else some (record b { p = set b.p 0 0 }, stride_layout s.len s.line cells)
]
