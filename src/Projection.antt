-- ===== src/Projection.antt =====
-- internal/service/projection: the read models that the worker builds from change events.
pub mod Store
pub mod Source
pub mod Tables
pub mod Summary
pub mod Balance
pub mod Runner
pub mod Worker
