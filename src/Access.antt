-- ===== src/Access.antt =====
-- Who may reach what, and spend what: entitlements and payments of scion_sdk.
pub mod Entitlements
pub mod Payments
mod Tests
