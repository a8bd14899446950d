-- ===== src/Cli/Client.antt =====
-- transport/cli/client.go: the reading of replies.
pub mod Defs
pub mod Stream
pub mod Chunks
pub mod Replies
mod Tests
