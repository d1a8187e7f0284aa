-- ===== src/Fleet.antt =====
-- The fleet: drivers and their assignments to vehicles (app/crud/driver.py), and planned routes with
-- theirs (app/crud/planned_route.py).
pub mod Drivers
pub mod Assignments
pub mod Routes
pub mod Exclusive
pub mod Registered
pub mod Transitions
pub mod Life
pub mod Assigned
mod Tests
