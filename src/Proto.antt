-- ===== src/Proto.antt =====
-- The messages between the clients and the server (src/proto/mod.rs).
pub mod Utf8
pub mod Reader
pub mod Message
pub mod Encode
pub mod Decode
pub mod Readers
pub mod RoundTrip
pub mod Stream
pub mod NewSession
pub mod Server
mod Tests
