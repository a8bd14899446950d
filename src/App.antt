-- ===== src/App.antt =====
-- app.go: the life of a service.
pub mod Inject
pub mod Wiring
pub mod Stop
mod Tests
