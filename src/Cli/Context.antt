-- ===== src/Cli/Context.antt =====
-- transport/cli/context.go: the replies of a connection.
pub mod Reply
