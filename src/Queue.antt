-- ===== src/Queue.antt =====
-- domain/queue.py: the pure queue commands.
mod Commands
mod Recovery
mod Completion
unfoldable pub use Commands.*
unfoldable pub use Recovery.*
unfoldable pub use Completion.*
