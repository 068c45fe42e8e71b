-- ===== src/Runner.antt =====
-- scion_sdk/runner: the sync pass of a worker.
pub mod Syncing
mod Tests
