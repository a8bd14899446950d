-- ===== src/Admin/Menus.antt =====
-- admin/models/menu.go: the way from a menu up to its root.
pub mod Walk
pub mod Ancestry
mod Tests
