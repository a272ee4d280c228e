-- ===== src/Program.antt =====
-- cmd/yggmail/main.go: the command, from its flags to the moment when it serves.
pub mod Start
pub mod Keeps
pub mod Identity
pub mod Password
pub mod Serving
pub mod Services
mod Tests
