-- ===== src/System.antt =====
-- The server and the client together: what a server builds, the client accepts.
pub mod Handshake
pub mod MockSetup
pub mod KeyService
pub mod AmdSetup
pub mod Flags
pub mod Inference
pub mod Session
