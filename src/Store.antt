-- ===== src/Store.antt =====
-- calibration_store.py: the stored profiles and cover records of one gateway.
pub mod Written
pub mod Record
pub mod Same
pub mod State
pub mod Restore
pub mod Assign
pub mod Orphans
pub mod Obeys
pub mod Assigned
pub mod Unique
pub mod Invariant
mod Tests
