-- ===== src/Admin/Guards.antt =====
-- admin/security_guards.go: who may change users and roles through the generic endpoints.
pub mod Defs
pub mod Privilege
pub mod Identity
pub mod Logins
mod Tests
