-- ===== src/Tests.antt =====
-- Concrete runs of the model, and each theorem applied at one of them.
mod Runs
mod Worlds
mod Handlers
mod Changes
mod Clocks
mod Witnesses
