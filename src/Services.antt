-- ===== src/Services.antt =====
-- __init__.py: the actions, behind the schema of their calls.
mod Queues
mod Starts
mod Mutations
mod Runs
unfoldable pub use Queues.*
unfoldable pub use Starts.*
unfoldable pub use Mutations.*
unfoldable pub use Runs.*
