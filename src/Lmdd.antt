-- ===== src/Lmdd.antt =====
-- lmdd (lmbench3/src/lmdd.c), as it is compiled for Linux: with FLUSH and O_SYNC, without O_DIRECT,
-- RUSAGE, USE_BDS, DBG and the parts for sgi.
pub mod Arguments
pub mod Histogram
pub mod Settings
pub mod Files
pub mod Transfer
pub mod Report
