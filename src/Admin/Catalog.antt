-- ===== src/Admin/Catalog.antt =====
-- admin/endpoint_permissions.go, admin/policy and admin/derive.go: the catalog of permissions.
pub mod Defs
pub mod Ensures
pub mod Registered
pub mod Enforced
pub mod Derive
pub mod Edits
pub mod Kept
mod Tests
