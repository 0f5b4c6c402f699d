-- ===== src/Entities.antt =====
-- entity.py and the entities that project or change the plan.
mod Projections
mod Numbers
mod Switches
unfoldable pub use Projections.*
unfoldable pub use Numbers.*
unfoldable pub use Switches.*
