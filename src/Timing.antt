-- ===== src/Timing.antt =====
-- lmbench3/src/lib_timing.c
pub mod Clock
pub mod Results
pub mod Loop
pub mod Calibration
pub mod Buffers
