-- ===== src/Database.antt =====
-- The tables of the database, the statements on them, and the repositories.
pub mod Pg
pub mod Rows
pub mod Args
pub mod Queries
pub mod Models
pub mod Repository
pub mod Users
pub mod RefreshTokens
pub mod ChangeEvents
pub mod SyncReaders
pub mod Listed
pub mod Picked
pub mod Tx
pub mod Atomicity
pub mod Versions
pub mod Hidden
