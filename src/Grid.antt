-- ===== src/Grid.antt =====
-- A pane's screen and its history (src/grid).
pub mod Cell
pub mod Slice
pub mod Scrollback
pub mod History
pub mod Screen
pub mod Line
pub mod Middle
pub mod Scroll
pub mod Lines
pub mod Valid
pub mod Rows
pub mod Cursor
pub mod Cells
pub mod Resize
pub mod Margins
pub mod Dirty
mod Tests
