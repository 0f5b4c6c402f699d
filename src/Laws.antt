-- ===== src/Laws.antt =====
-- Facts about the constructors of domain/models.py that the proofs about the commands share.
pub mod Keyed
pub mod Freezing
pub mod Constructors
pub mod History
pub mod Sets
