-- ===== src/Models.antt =====
-- domain/models.py: the immutable domain models and the checks of their constructors.
mod Enums
mod Time
mod Json
mod Checks
mod Jobs
mod Blocks
mod Ledgers
mod Transitions
mod Rooms
mod Equality
unfoldable pub use Enums.*
unfoldable pub use Time.*
unfoldable pub use Json.*
unfoldable pub use Checks.*
unfoldable pub use Jobs.*
unfoldable pub use Blocks.*
unfoldable pub use Ledgers.*
unfoldable pub use Transitions.*
unfoldable pub use Rooms.*
unfoldable pub use Equality.*
