-- ===== src/Admin/Roles.antt =====
-- admin/models/role.go, admin/models/role_permission.go and admin/service/role.go: the grants of a
-- role, and what follows a role that is renamed or deleted.
pub mod Defs
pub mod Cascade
pub mod Replace
pub mod Outcome
pub mod Moves
pub mod Detached
pub mod Missing
pub mod Converged
pub mod Reads
pub mod ReadBack
mod Tests
