-- ===== src/Due.antt =====
-- `build_due_snapshot`: which rooms are planned, and in which order.
pub mod Rooms
pub mod Candidates
pub mod Order
pub mod Rest
pub mod Skips
