-- ===== src/Admin/Session.antt =====
-- admin/service/auth.go and revocation_validator.go, with `Claims` of admin/auth/claims.go.

pub mod Model
pub mod Login
pub mod TenantStatus
pub mod Gates
pub mod Audit
pub mod Renew
pub mod Admission
pub mod Rotation
pub mod Logout
pub mod Guard
mod Tests
