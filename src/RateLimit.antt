-- ===== src/RateLimit.antt =====
-- internal/ratelimit/ratelimit.go: per-client request limits by token buckets.
pub mod Bucket
pub mod Limiter
pub mod Methods
mod Tests
