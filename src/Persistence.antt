-- ===== src/Persistence.antt =====
-- What the coordinator shows, and what it stores.
pub mod Commands
