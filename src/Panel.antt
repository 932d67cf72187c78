-- ===== src/Panel.antt =====
-- panel_write.py: the writes of the panel, under one lock, with one undo.
pub mod Write
pub mod Restored
pub mod Undone
pub mod Profiles
pub mod Reorder
pub mod Edit
pub mod Assign
mod Tests
