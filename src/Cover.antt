-- ===== src/Cover.antt =====
-- cover.py: a shutter as its entity sees it.
pub mod Number
pub mod Roll
pub mod State
pub mod Travel
pub mod Movement
pub mod Stop
pub mod Echo
pub mod Events
pub mod Commands
pub mod Lifecycle
pub mod Health
pub mod Estimate
pub mod Deadline
pub mod Window
pub mod Recalibrated
mod Tests
