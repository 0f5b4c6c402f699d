-- ===== src/RoundTrips.antt =====
-- Reading what domain/serialization.py has written.
pub mod Targets
pub mod Readers
pub mod Plans
pub mod Ledgers
pub mod Roots
