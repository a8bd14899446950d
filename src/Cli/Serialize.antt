-- ===== src/Cli/Serialize.antt =====
-- transport/cli/serialize.go: how the data of a reply becomes text.
pub mod Value
pub mod Table
pub mod Text
mod Tests
