-- ===== src/Tokens.antt =====
-- admin/service/memory_token_store.go: the denylist of revoked token ids.
pub mod Store
pub mod Capacity
pub mod Revocation
pub mod Interface
mod Tests
