-- ===== src/Cli.antt =====
-- transport/cli: the wire frames, the command router, the replies, the client and the server.
pub mod Frame
pub mod Wire
pub mod Decode
pub mod Writer
pub mod Router
pub mod Serialize
pub mod Context
pub mod Client
pub mod Server
mod Tests
