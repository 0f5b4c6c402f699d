-- ===== src/Starts.antt =====
-- `start_due_block`: what it seals, and what a repeated start returns.
pub mod Contents
pub mod Retry
