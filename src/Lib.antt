-- ===== src/Lib.antt =====
-- A verification library for lmbench3 (lmbench3/src), the benchmark suite of this repository: the
-- parts of it that compute.
--
-- The program. A benchmark of lmbench3 hands a loop body to the timing harness (lib_timing.c and the
-- macros of bench.h). The harness runs it, reads the clock, keeps the measurements of the runs in a
-- result set in descending order, and reports the smallest or the median one. lib_mem.c lays out the
-- pointer chains that the memory benchmarks follow, in orders that `words_initialize` and
-- `permutation` choose; lib_stats.c summarises arrays of measurements. lmdd copies
-- blocks between files, checks or writes a pattern in them, and times each read and write. cache.c
-- measures chains of growing sizes with both libraries and looks for the sizes of the caches; mhz.c
-- computes the clock rate from the times of several loops; tlb.c searches for the size of the TLB.
-- lat_mem_rd.c follows chains in growing ranges, lat_ctx.c passes a token around a ring of processes,
-- memsize.c looks for the memory that can be used, disk.c for the size and the seek times of a disk, and
-- lmhttp.c is the server for the web benchmarks.
--
-- The files.
--   Base and its children: shared names, Boolean tests, arrays as lists, integers, C strings.
--   Doubles: C `double` as an interface. There are no floating-point numbers here: the operations are
--     a parameter of the definitions, and what a theorem needs of them is a hypothesis: `IsOrdered`,
--     or `IsStrict` of Cache/Pages/Sorted.
--   Timing/Clock: `start`, `stop`, `tvsub`, `tvdelta`, `settime`, `gettime`, `now`, `delta`, `save_n`
--     and `get_n` of lib_timing.c, on a record of the globals that they read and write.
--   Timing/Results: `result_t`, `insertinit`, `insertsort`, `sizeof_result`, `save_minimum` and
--     `save_median`, and the measuring loop of `BENCH` (bench.h).
--   Timing/Loop: the macros `BENCH_INNER`, `BENCH1` and `BENCHO` of bench.h.
--   Timing/Calibration: `compute_enough`, `find_N`, `test_time` and `time_N` of lib_timing.c, and the
--     overheads `t_overhead` and `l_overhead`.
--   Timing/Buffers: `bread`, `touch` and `bytes` of lib_timing.c.
--   Harness: `benchmp_child_state`, `benchmp_interval` and the loop of `benchmp_child` (lib_timing.c).
--     Child has what the state keeps, Messages the protocol with the parent, Progress the end of an
--     experiment, Parent the merging of results in `benchmp_parent`.
--   Harness/Control: `benchmp_parent`, with what `select` and `read` return as a list of replies.
--     Received says what its loops store, Protocol which action may follow
--     which, Followed that it is so.
--   Harness/Launch: `benchmp`, the fork loop and the end of the children. Counts and Kills say which
--     children are killed, Settled what a call leaves.
--   Scheduling: `reverse_bits`, `custom`, `handle_scheduler` and `sched_pin` of lib_sched.c, on the
--     processor count and the masks that the system gives.
--   Options: `getopt` of getopt.c, on a record of its globals and its static variable.
--   Lmdd and its children: lmdd.c. Arguments has `chkarg` and `getarg`, Settings what `main` reads and
--     checks, Files `getfile`, Transfer the endless loop of `main` and `been_there`, Histogram the
--     counting of the times and their report, Report the rest of `done`. What the system answers in a
--     round of the loop (what `read` and `write` return, the random numbers, the times, which side
--     of a fork the process is) is an argument, what the round does to the outside a list of actions.
--   Statistics: the functions of lib_stats.c: comparisons, medians, means, minima and maxima. Sort has
--     `qsort`, which the C library gives, Spread the functions that work in `double`, Bootstrap the
--     bootstrap estimates, Regression the fit of a line.
--   Bits: the bit loops that lib_mem.c and lib_sched.c write out.
--   Memory/Words, Memory/Shuffle: `words_initialize` of lib_mem.c and `permutation` of lib_timing.c.
--   Memory/State: `struct mem_state`, `base_initialize` and `mem_cleanup` of lib_mem.c.
--   Memory/Chain: memory as a function from offsets to words, and the loop of `mem_benchmark_0`.
--   Memory/Stride, Memory/Line: `stride_initialize` and `line_initialize` of lib_mem.c.
--   Memory/Thrash, Memory/Pointers, Memory/Tlb: `thrash_initialize`, `mem_initialize` and the chain of
--     `tlb_initialize` of lib_mem.c.
--   Memory/LineTest, Memory/Search: `line_test` and the search of `line_find` of lib_mem.c.
--   Cache/Sizes, Cache/Levels: the sizes that `collect_data` of cache.c samples, `find_cache` and the
--     loop of `main` over the levels.
--   Cache/Pages: `pagesort` of cache.c and the exchanges of pages.
--   Cache/Measure, Cache/Chunks, Cache/Tests: `measure`, `remove_chunk` and `fixup_chunk`, and
--     `test_chunk`, which look for pages that collide, on a record of the pages, the memory and the static index.
--   Cache/Collect: `collect_sample`, `search` and the rest of `collect_data`.
--   Memory/Parallel: `par_mem` of lib_mem.c, in the memory that it finds.
--   TlbSize: `find_tlb` and `compute_times` of tlb.c.
--   LatMemRd: lat_mem_rd.c: the ranges and the loop over a chain. Grows has their bounds.
--   LatCtx: the ring of processes of lat_ctx.c. Token says where its one token can be, Turns which
--     process can go on, Schedule what holds for any order of the processes; Processes has the pipes
--     and the forks.
--   Http: the loops of lmhttp.c that send a file (Sent), and its log (Logged).
--   Memsize: memsize.c. Found has the search for a size, Timed the loop of `timeit`.
--   Disk: disk.c. Size has `disksize`, Seeks the loop of `seek`.
--   Mhz: `filter_data`, `classes`, `mode`, `cross_values`, `gcd` and `compute_mhz` of mhz.c, and the
--     three efforts of its `main`.
--   Examples and its children: the theorems at concrete inputs, and runs of the functions.
--
-- Conventions. `uint64` and `size_t` values are natural numbers with the wrap-around written out
-- where the code can reach it; the `int`s in which lib_mem.c and disk.c store one keep its low 32
-- bits with their sign. A signed overflow, a division by 0 and a read past an array are `none`. A C
-- array is a list, and an index loop is a recursion on the rounds that are left. What the
-- environment gives (the clock, `malloc`, `rand`, `getpid`) is an argument.
--
-- Fuel. The fuel of `bench_inner` counts the rounds of the loop, and its theorem says how many are
-- enough. The loop of `custom` takes as many rounds as its string has characters and one more. The
-- loop of `stride_initialize` has as much fuel as the range has bytes: each round adds the stride,
-- which is not 0. The bit-counting loop has as much fuel as the number it halves. The loops of `bread`
-- and `touch` have as much fuel as the buffer has bytes, and that of `line_find`, which doubles its
-- size, as many rounds as the largest size. The increment of the sizes of cache.c doubles in each
-- octave, so that the largest size is enough fuel there. `test_chunk` and `search` have fuel for the
-- depth of their calls: the size of the chunk, and the distance of the ends. The loop over the levels
-- has as much as there are sizes. The first loop of `find_tlb` doubles its number, so that the largest
-- number is enough, and its binary search has the distance of its ends. The loops of
-- `benchmp_parent` take one reply in each round; a run that uses up its replies is still waiting. The size in memsize.c
-- is halved at most 64 times; `timeit`, `disksize` and `seek` move by at least 1 in each round, so that
-- the size of the memory or the disk is enough. The ranges of lat_mem_rd.c grow by at least 1, and the
-- power of 2 in its `step` reaches 2 ^ 63 in 64 rounds.
--
-- Not modelled: the signal dispositions of the harness, the
-- networking helpers, the printing of results, the options of cache.c,
-- tlb.c and mhz.c, the other benchmark
-- programs, and the shell and Perl scripts.
pub mod Base
pub mod Bits
pub mod Cache
pub mod Disk
pub mod Doubles
pub mod Examples
pub mod Harness
pub mod Http
pub mod LatCtx
pub mod LatMemRd
pub mod Lmdd
pub mod Memory
pub mod Memsize
pub mod Mhz
pub mod Options
pub mod Scheduling
pub mod Statistics
pub mod Timing
pub mod TlbSize
