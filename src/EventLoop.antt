-- ===== src/EventLoop.antt =====
-- The server's event loop (src/server/event_loop.rs), as far as it computes without the terminal and
-- the sockets: the frames of its clients.
pub mod Fields
pub mod Frame
pub mod Loop
pub mod Safe
pub mod Framed
pub mod Total
pub mod Relay
pub mod Turns
pub mod Chunks
pub mod Puts
pub mod Arrives
pub mod Delivery
mod Tests
