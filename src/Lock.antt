-- ===== src/Lock.antt =====
-- internal/lock/redis.go: the locks of production lines.
pub mod Provider
pub mod Protocol
pub mod RoundTrip
pub mod Redis
pub mod Documented
pub mod Exclusion
