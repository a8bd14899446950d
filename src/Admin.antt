-- ===== src/Admin.antt =====
-- admin: sessions (login, refresh and logout with the revocation validator), permissions, the tenant
-- scope, the guards on users and roles, a user's own row, the grants of roles, the
-- path of a menu, and the catalog of permissions.
pub mod Session
pub mod Permission
pub mod TenantScope
pub mod Guards
pub mod Users
pub mod Roles
pub mod Menus
pub mod Catalog
