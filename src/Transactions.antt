-- ===== src/Transactions.antt =====
-- The use cases of transactions, over the repositories.
pub mod Domain
pub mod Adapter
pub mod Reading
pub mod Service
pub mod Events
pub mod Outbox
pub mod Queueing
pub mod Visibility
pub mod Listing
pub mod AnyUser
