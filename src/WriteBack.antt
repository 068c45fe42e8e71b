-- ===== src/WriteBack.antt =====
-- scion_sdk/writeback: governed mutation of a source system.
pub mod Contract
pub mod Validation
pub mod Ports
pub mod Governed
pub mod Common
pub mod Memory
pub mod FileTransport
pub mod Recovery
pub mod Ledger
pub mod Connector
mod Tests
