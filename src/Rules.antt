-- ===== src/Rules.antt =====
-- The checks of domain/models.py, stated without the code that checks, and single commands of
-- domain/queue.py.
pub mod Dispatch
pub mod Results
pub mod Times
pub mod Restart
pub mod Batches
