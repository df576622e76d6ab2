-- ===== src/Input.antt =====
-- The filter of a client's input (src/client/input_filter.rs).
pub mod Filter
pub mod Scan
pub mod Split
pub mod Tokens
pub mod Hold
pub mod Cut
mod Tests
