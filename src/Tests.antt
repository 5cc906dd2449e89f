-- ===== src/Tests.antt =====
-- The theorems at concrete inputs, one module for each part of the program.
mod Merging
mod Syncing
mod Cells
mod Projecting
mod Running
mod Sample
mod Queues
mod People
mod Listing
mod Http
mod Transactions
mod Auth
mod Serving
mod Asking
mod Programs
