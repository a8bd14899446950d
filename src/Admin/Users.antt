-- ===== src/Admin/Users.antt =====
-- admin/service/user.go: what a signed-in user may do to its own row, and the password policy of
-- admin/models/user.go.
pub mod Defs
pub mod Methods
pub mod Policy
pub mod Written
pub mod Own
pub mod Reset
mod Tests
