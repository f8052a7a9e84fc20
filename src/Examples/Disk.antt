-- ===== src/Examples/Disk.antt =====
-- disk.c of lmbench3/src on small disks.
use repo_support_tools.Base.{
  ℕ, suc, ◌-◌, ◌*◌, ◌/◌, ◌%◌, ◌<◌, ◌≤◌, ◌≡◌, Bool, true, false, some, List, [], ◌∷◌, length, ltb,
  refl, arith,
}
use repo_support_tools.Disk.{
  forward2, disksize, round_stride, seek_stride, seekpoints, int_stride, seek_loop, seek_offsets,
  seek_steps, ZoneRound, zone_loop, zone, zone_sizes,
}
use repo_support_tools.Disk.Size.{disksize-last}
use repo_support_tools.Disk.Seeks.{distances, shrinking, seek_offsets-distances}

-- a disk of 3,000,000 bytes
abbrev can_read : ℕ → Bool
can_read n = ltb n 3000000

disksize-last_example : disksize true can_read 4000000 ≡ some ((3000000 - 1) / forward2 * forward2)
disksize-last_example =
    disksize-last can_read 3000000 (λ n. refl) 4000000 (omega arith) (omega arith) (omega arith)

seek_offsets-distances_example :
    (stride : ℕ) × (ps : List ℕ) × (seek_stride 3000000 ≡ some stride)
    × (seek_offsets 3000000 ≡ some (0 ∷ ps))
    × (distances 0 ps ≡ shrinking stride (length ps) 3000000)
    × (3000000 < suc (suc (length ps)) * stride)
    × (stride % 512 ≡ 0)
    × (3000000 / seekpoints ≤ stride)
seek_offsets-distances_example = seek_offsets-distances 3000000 (omega arith)

-- 5 TB: the 2000th part becomes negative in an `int`
large_stride : seek_stride 5000000000000 ≡ some 512
unfolding seek_stride round_stride int_stride
large_stride = refl

sought_offsets : seek_loop 100 9 0 500 ≡ 400 ∷ 100 ∷ 300 ∷ 200 ∷ []
unfolding seek_loop
sought_offsets = refl

two_steps : seek_steps 9 1500000000 ≡ 1073741824 ∷ 426258176 ∷ []
unfolding seek_steps
two_steps = refl

abbrev whole_read : ZoneRound
whole_read = record { first = 1024; second = 262144; usecs = 7000; seek_fails = false }

abbrev short_read : ZoneRound
short_read = record { first = 1024; second = 100; usecs = 7000; seek_fails = false }

one_zone : zone 1048576 3000000 false (whole_read ∷ short_read ∷ []) ≡ some ((263680, 7000) ∷ [])
unfolding zone zone_loop round_stride int_stride zone_sizes
one_zone = refl
