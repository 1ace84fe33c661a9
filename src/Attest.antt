-- ===== src/Attest.antt =====
-- The library crate poc/crates/sifir-attest.
pub mod Report
pub mod Payload
pub mod Extension
pub mod Mock
pub mod Error
pub mod AmdCerts
pub mod Verify
