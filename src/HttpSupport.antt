-- ===== src/HttpSupport.antt =====
-- scion_sdk/httpsupport: the pagination of HTTP collections.
pub mod Values
pub mod Walk
pub mod Iteration
mod Tests
