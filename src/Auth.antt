-- ===== src/Auth.antt =====
-- middleware/auth: the allowlist, the JWT middleware and the rate limiter, with the copy of the
-- allowlist matcher in admin/permission.go.
pub mod Allow
pub mod Matching
pub mod Jwt
pub mod Pipeline
pub mod Header
pub mod RateLimit
pub mod Limiter
mod Tests
