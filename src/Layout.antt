-- ===== src/Layout.antt =====
-- The layout of a window's panes (src/layout/mod.rs).
pub mod Tree
pub mod Edit
pub mod Geometry
pub mod Cover
pub mod Presets
pub mod Rebuild
pub mod Neighbor
pub mod Nearest
pub mod Beside
pub mod Border
pub mod Text
pub mod Outer
pub mod Divider
pub mod Moved
mod Tests
