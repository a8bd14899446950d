-- ===== src/Cli/Router.antt =====
-- transport/cli/router.go: the tree of commands.
pub mod Tree
pub mod Handle
pub mod Registered
pub mod Complete
mod Tests
