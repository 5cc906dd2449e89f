-- ===== src/Queue.antt =====
-- The queues: Redis streams for jobs, and the table of sync items.
pub mod Stream
pub mod Delivery
pub mod Fields
pub mod Items
pub mod Drained
