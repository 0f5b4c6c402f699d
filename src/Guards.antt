-- ===== src/Guards.antt =====
-- What the generations, the claim and the latch of the runtime guarantee, and the order of the calls.
pub mod Calls
pub mod Generations
pub mod Preferences
pub mod Claims
pub mod Dispatches
pub mod Latches
pub mod Loads
pub mod Starts
