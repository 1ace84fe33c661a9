-- ===== src/Client.antt =====
-- The client, poc/crates/sifir-client.
pub mod GpuVerify
pub mod Verifier
pub mod Request
pub mod Main
