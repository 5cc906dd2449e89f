-- ===== src/Http.antt =====
-- The HTTP interface: backend/internal/api and backend/internal/auth.
pub mod Messages
pub mod Handlers
pub mod Accounts
pub mod Routes
pub mod Access
pub mod Login
