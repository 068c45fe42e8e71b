-- ===== src/Http.antt =====
-- Retries of scion_sdk/http/retry.py and scion_sdk/resilience.py.
pub mod Retry
pub mod Resilience
mod Tests
