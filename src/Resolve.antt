-- ===== src/Resolve.antt =====
-- The numbers a shutter runs on: what its record, a profile and the file say, merged.
pub mod Derive
pub mod Keys
pub mod Covers
pub mod Gathered
pub mod Inherited
pub mod Answers
pub mod Scales
pub mod Precedence
pub mod Assigned
mod Tests
