-- ===== src/App.antt =====
-- app.go: the handlers of the daemon in the order in which they see a request.
pub mod Pipeline
pub mod Access
pub mod Guarded
pub mod Assembled
pub mod Certificates
mod Tests
