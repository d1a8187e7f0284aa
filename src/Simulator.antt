-- ===== src/Simulator.antt =====
-- app/services/simulator/physics: the systems of a simulated vehicle. What a random generator draws is
-- an argument of the update that reads it.
pub mod Profile
pub mod Engine
pub mod Motion
pub mod Supply
pub mod Drive
pub mod Limits
pub mod Speed
pub mod Updates
pub mod Stops
mod Tests
