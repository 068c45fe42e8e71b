-- ===== src/Ingest.antt =====
-- scion_sdk/ingest: the paging of streams, their batches, and the sync of declared sources.
pub mod Sync
pub mod Batches
pub mod Source
mod Tests
