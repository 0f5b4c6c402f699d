-- ===== src/Dispatch.antt =====
-- __init__.py: the dispatch of a created block.
mod Claims
mod Worlds
mod Waits
mod Runs
unfoldable pub use Claims.*
unfoldable pub use Worlds.*
unfoldable pub use Waits.*
unfoldable pub use Runs.*
