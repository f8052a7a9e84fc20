-- ===== src/Examples/LatMemRd.antt =====
-- lat_mem_rd.c of lmbench3/src on small ranges.
use repo_support_tools.Base.{
  ℕ, suc, ◌*◌, ◌<◌, ◌≡◌, some, List, [], ◌∷◌, ◌==◌, if◌then◌else◌, refl, arith,
}
use repo_support_tools.Memory.Chain.{Cells, deref}
use repo_support_tools.LatMemRd.{step, ranges, power_above, lowest, load_count, benchmark_loads}
use repo_support_tools.LatMemRd.Grows.{Ascends, ranges-ends, benchmark_loads-deref}

ranges-ends_example :
    (xs : List ℕ) × (ranges 8192 (suc 8192) lowest ≡ some xs) × Ascends lowest 8192 xs
ranges-ends_example = ranges-ends 8192 (omega arith)

small_ranges : ranges 8192 9 512 ≡ some (512 ∷ 1024 ∷ 2048 ∷ 3072 ∷ 4096 ∷ 6144 ∷ 8192 ∷ [])
unfolding ranges step power_above
small_ranges = refl

-- two pointers, 64 bytes from each other
abbrev two_pointers : Cells
two_pointers p = if p == 0 then 64 else 0

benchmark_loads-deref_example :
    (benchmark_loads 2 128 64 two_pointers 0 ≡ deref two_pointers (2 * load_count 128 64) 0)
    × (128 < load_count 128 64 * 64)
benchmark_loads-deref_example = benchmark_loads-deref 2 128 64 two_pointers 0 (omega arith)
