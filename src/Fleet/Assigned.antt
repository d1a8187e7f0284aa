-- ===== src/Fleet/Assigned.antt =====
-- The assignment of a vehicle to a planned route (`assign_route_to_vehicle` of
-- app/crud/planned_route.py).
use mathlib.Core.Option
use welogical_vehicle_tracki.Common.{ℕ, List, ◌==◌}
use welogical_vehicle_tracki.Float.{Float}
use welogical_vehicle_tracki.Models.{VehicleRouteAssignment}
use welogical_vehicle_tracki.Fleet.Assignments.{update_all}
use welogical_vehicle_tracki.Fleet.Routes.{deactivate}

module _ {F : Type 0} where
  -- The assignments after those of a vehicle are made inactive.
  abbrev ended : ℕ → List (VehicleRouteAssignment F) → List (VehicleRouteAssignment F)
  ended v rows = update_all (λ (a : VehicleRouteAssignment F). a.vehicle_id == v) deactivate rows
