-- ===== src/Auth/Limiter.antt =====
-- middleware/auth/rate_limit_memory.go: the token bucket of each key.
pub mod Defs
pub mod Burst
mod Tests
