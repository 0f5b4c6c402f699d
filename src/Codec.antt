-- ===== src/Codec.antt =====
-- domain/serialization.py: the codecs of plan revisions, snapshots, ledgers and the planner's state.
mod Readers
mod Plans
mod Ledgers
mod Roots
unfoldable pub use Readers.*
unfoldable pub use Plans.*
unfoldable pub use Ledgers.*
unfoldable pub use Roots.*
