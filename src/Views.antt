-- ===== src/Views.antt =====
-- What the observations, the projections and the numbers of the entities show.
pub mod Words
pub mod Outcomes
pub mod Projections
pub mod Rooms
