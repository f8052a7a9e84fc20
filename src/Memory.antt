-- ===== src/Memory.antt =====
-- lmbench3/src/lib_mem.c and the array helpers of lmbench3/src/lib_timing.c that it uses: the orders
-- in which words, lines and pages are visited, and the pointer chains through them.
pub mod Chain
pub mod Line
pub mod Shuffle
pub mod State
pub mod Stride
pub mod Words
pub mod LineTest
pub mod Search
pub mod Thrash
pub mod Pointers
pub mod Tlb
pub mod Parallel
