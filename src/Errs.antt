-- ===== src/Errs.antt =====
-- pkg/errs: the business error codes (const.go) and their HTTP and gRPC statuses (error.go).
mod Codes
pub mod Status
pub use Codes.*
mod Tests
