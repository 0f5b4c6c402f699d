-- ===== src/Setup.antt =====
-- __init__.py: the setup of a config entry, its unloading, and the observer's reactions.
mod Plans
mod Loads
mod Reactions
unfoldable pub use Plans.*
unfoldable pub use Loads.*
unfoldable pub use Reactions.*
