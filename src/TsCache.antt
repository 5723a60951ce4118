-- ===== src/TsCache.antt =====
-- The package `tscache`: a cache of time series, partitioned by time.
pub mod Partition
pub mod Store
pub mod Iterator
pub mod Stats
pub mod Config
pub mod Storage
pub mod Restart
mod Tests
