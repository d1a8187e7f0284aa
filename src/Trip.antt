-- ===== src/Trip.antt =====
-- The trips of a vehicle: app/services/trip_engine.py and the services that read its trips.
pub mod Engine
pub mod Session
pub mod Open
pub mod Carried
pub mod Once
pub mod Rebuild
pub mod View
pub mod Change
pub mod Frame
pub mod Timeline
pub mod Started
pub mod Invariant
pub mod Score
pub mod Downsample
pub mod Sampled
pub mod Summary
pub mod Stops
pub mod Overspeeds
mod Tests
