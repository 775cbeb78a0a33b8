-- ===== src/Fixture.antt =====
-- Stand-ins for what the model leaves outside: an executor with retries, and a server that keeps
-- databases, roles, files and users. They show that the assumptions can be met, and run the tests.
pub mod Executor
pub mod Server
pub mod Disk
pub mod Start
pub mod Host
