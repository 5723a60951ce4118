-- ===== src/ApiCache.antt =====
-- The package `apicache`: a cache of API responses with request coalescing and a circuit breaker.
pub mod Circuit
pub mod Cache
pub mod Fetch
pub mod Middleware
mod Tests
