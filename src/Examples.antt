-- ===== src/Examples.antt =====
-- The theorems at concrete inputs, and runs of the functions.
mod Fractions
mod Timing
mod Statistics
mod Memory
mod Harness
mod Control
mod Loop
mod Scheduling
mod Options
mod Lmdd
mod Cache
mod Http
mod LatMemRd
mod LatCtx
mod Memsize
mod Disk
mod Mhz
mod TlbSize
