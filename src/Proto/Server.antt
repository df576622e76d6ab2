-- ===== src/Proto/Server.antt =====
-- The messages of the server (src/proto/mod.rs).
pub mod Cells
pub mod Message
pub mod Encode
pub mod Decode
pub mod Puts
pub mod Arms
pub mod RoundTrip
pub mod Stream
mod Tests
