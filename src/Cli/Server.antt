-- ===== src/Cli/Server.antt =====
-- transport/cli/server.go: a connection, and the commands that run on it.
pub mod Fields
pub mod Context
pub mod Execute
pub mod Process
pub mod Ends
pub mod Turns
pub mod Answer
pub mod Refusal
mod Tests
