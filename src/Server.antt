-- ===== src/Server.antt =====
-- The server, poc/crates/sifir-server.
pub mod Pem
pub mod SnpGuest
pub mod Kds
pub mod GpuAttestation
pub mod Tls
pub mod Proxy
pub mod App
pub mod Main
pub mod Tasks
