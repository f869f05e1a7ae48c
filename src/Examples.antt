-- ===== src/Examples.antt =====
-- The tests: a concrete library, concrete stores and requests, and the theorems at them.
pub mod Fixture
pub mod Data
pub mod Stores
pub mod Strategies
pub mod Updates
pub mod Requests
pub mod Published
pub mod Startup
pub mod Copies
pub mod Memories
pub mod Races
pub mod DeleteRaces
pub mod Certs
pub mod Accepted
pub mod ReadBack
