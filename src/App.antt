-- ===== src/App.antt =====
-- The programs under cmd/api: how they start, what they put together, and how they end.
pub mod Config
pub mod Connect
pub mod Start
pub mod Opened
pub mod Credentials
pub mod Unused
pub mod Health
pub mod Agreement
pub mod Server
pub mod Shutdown
pub mod Jobs
pub mod Carried
pub mod Quiet
pub mod Wiring
pub mod Stored
pub mod Asked
pub mod Answered
pub mod Served
