-- ===== src/Transport.antt =====
-- The crate crates/transport: framed, authenticated connections.
pub mod Error
pub mod Sas
pub mod Frame
pub mod Connection
pub mod Identity
pub mod PeerStore
pub mod Handshake
pub mod Endpoint
