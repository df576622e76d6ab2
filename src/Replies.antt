-- ===== src/Replies.antt =====
-- The replies that a pane owes its child (src/server/pane.rs).
pub mod Queue
pub mod Order
pub mod Calls
mod Tests
