-- ===== src/Admin/Permission.antt =====
-- admin/permission.go: which requests a role may make.
pub mod Checker
pub mod Decision
pub mod Closed
mod Tests
