-- ===== src/Server.antt =====
-- internal/server/server.go: the server's HTTP side and its start.
pub mod Paths
pub mod Routes
pub mod Start
pub mod Recorder
mod Tests
