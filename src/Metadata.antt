-- ===== src/Metadata.antt =====
-- metadata/metadata.go: the metadata of a request.
pub mod Defs
pub mod Access
pub mod Merge
mod Tests
