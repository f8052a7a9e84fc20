-- ===== src/Cache.antt =====
-- lmbench3/src/cache.c: how the sizes of the caches are guessed.
pub mod Sizes
pub mod Levels
pub mod Pages
pub mod Measure
pub mod Chunks
pub mod Tests
pub mod Collect
