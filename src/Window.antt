-- ===== src/Window.antt =====
-- A window: panes in a layout, one of them active (src/server/window.rs).
pub mod State
pub mod Operations
pub mod Invariant
pub mod Run
pub mod Focus
pub mod Ids
pub mod Preserve
pub mod Edit
pub mod Safe
pub mod Sized
pub mod Kept
mod Tests
