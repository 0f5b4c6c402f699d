-- ===== src/Observer.antt =====
-- integration_observer.py: the transitions that an observation causes. A set is listed without
-- repetition; `order` is the order in which Python iterates over it, which the source leaves open.
mod Runs
mod Failures
mod Applications
unfoldable pub use Runs.*
unfoldable pub use Failures.*
unfoldable pub use Applications.*
