-- ===== src/Safety.antt =====
-- What holds of the ledger across every command of domain/models.py and domain/queue.py.
pub mod Moves
pub mod Edits
pub mod Graph
pub mod Rewrites
pub mod Histories
pub mod Batches
pub mod Resolutions
pub mod Endings
pub mod Live
pub mod Observing
pub mod Observed
pub mod Clearing
pub mod Commands
