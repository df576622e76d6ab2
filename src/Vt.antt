-- ===== src/Vt.antt =====
-- The terminal's escape sequences (src/vt/mod.rs, and `set_sgr` of src/grid/mod.rs).
pub mod Sgr
pub mod Handler
pub mod Dispatch
pub mod Safe
pub mod Reach
mod Tests
