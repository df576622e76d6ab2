-- ===== src/Sessions.antt =====
-- The sessions and the clients of the server, and what a client's message does to them
-- (src/server/session.rs and the dispatch in src/server/event_loop.rs).
pub mod State
pub mod Requests
pub mod Windows
pub mod Placed
pub mod Moves
pub mod Preserve
pub mod Served
pub mod Changes
pub mod Run
pub mod Safe
pub mod Remove
pub mod Switch
mod Tests
