-- ===== src/Cache.antt =====
-- infra/cache/memory and admin/dbcache: a map of values that expire, and the cache of database reads
-- that stands on it.
pub mod Memory
pub mod Reader
pub mod Coherent
pub mod Calls
mod Tests
