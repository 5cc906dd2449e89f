-- ===== src/Sheets.antt =====
-- internal/sync: Google Sheets rows, their merge with local change events, and the sync service.
pub mod Rows
pub mod Merge
pub mod Client
pub mod Google
pub mod Sync
