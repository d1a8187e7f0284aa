-- ===== src/Fleet/Tests.antt =====
-- A vehicle, two drivers and two routes (app/crud/driver.py, app/crud/planned_route.py).
use welogical_vehicle_tracki.Common.{
  ℕ, ◌≡◌, refl, none, some, [], ◌∷◌, ◌==◌, ℤ, pos, ok, arith, if◌then◌else◌,
}
use welogical_vehicle_tracki.Float.Fixed.{fixed_float}
use welogical_vehicle_tracki.Models.{driver_active, Vehicle, PlannedRoute, Database, empty_database}
use welogical_vehicle_tracki.Settings.{secs}
use welogical_vehicle_tracki.Fleet.Drivers.{DriverCreate, driver_row}
use welogical_vehicle_tracki.Fleet.Assignments.{
  new_assignment, assign, create_assignment, get_active_assignment_by_vehicle,
  get_active_assignment_by_driver, update_all,
}
use welogical_vehicle_tracki.Fleet.Exclusive.{
  Exclusive, assigned, Change-IsExclusive, create_assignment-active,
}
use welogical_vehicle_tracki.Fleet.Routes.{
  get_route, set_route, with_status, update_route_status, among,
}
use welogical_vehicle_tracki.Fleet.Transitions.{
  Move, update_route_status-Move, update_route_status-accepts, started,
}
use welogical_vehicle_tracki.Fleet.Life.{
  next, done, IsCompleted, Finishes, Updates-IsCompleted, Updates-Finishes,
}

abbrev ann : DriverCreate
ann = record {
  driver_name = "Ann";
  phone_number = "111";
  email = none;
  license_number = "L1";
  license_expiry = secs 900;
  emergency_contact = "Bob";
  status = driver_active;
}

abbrev car : Vehicle
car = record {
  id = 7;
  device_uid = "T-7";
  vehicle_name = "Car";
  vehicle_type = "Car";
  last_seen = none;
  status = "Enabled";
}

abbrev school_run : PlannedRoute ℤ
school_run = record {
  id = 1;
  name = "School";
  start_location = "A";
  destination = "B";
  distance = pos 5;
  estimated_duration = pos 600;
  status = "Assigned";
}

abbrev delivered : PlannedRoute ℤ
delivered = record school_run { id = 2; status = "Completed" }

abbrev depot : Database ℤ
depot = record (empty_database ℤ) {
  vehicles = record { rows = car ∷ []; next_id = 8 };
  drivers = record { rows = driver_row 1 ann ∷ []; next_id = 2 };
  planned_routes = record { rows = school_run ∷ delivered ∷ []; next_id = 3 };
}

abbrev driven : Database ℤ
driven = assign 7 1 (secs 10) depot

accepted :
    create_assignment 7 1 (secs 10) depot ≡ ok (some (new_assignment 1 7 1 (secs 10)), driven)
unfolding create_assignment assign update_all
accepted = refl

create_assignment-active_example :
    let new = some (new_assignment 1 7 1 (secs 10)) in
    (new ≡ new)
    × (get_active_assignment_by_vehicle driven 7 ≡ new)
    × (get_active_assignment_by_driver driven 1 ≡ new)
create_assignment-active_example =
    create_assignment-active 7 1 (secs 10) depot driven (some (new_assignment 1 7 1 (secs 10)))
      accepted

Change-IsExclusive_example : Exclusive driven
Change-IsExclusive_example =
    Change-IsExclusive depot driven
      (assigned 7 1 (secs 10) (some (new_assignment 1 7 1 (secs 10))) depot driven accepted)
      (λ v. omega arith, λ d. omega arith)

abbrev running : Database ℤ
running = set_route 1 (with_status "Running") depot

update_route_status-accepts_example :
    update_route_status 1 "Running" depot ≡ ok (with_status "Running" school_run, running)
update_route_status-accepts_example =
    update_route_status-accepts 1 "Running" school_run depot refl started

update_route_status-Move_example :
    (old : PlannedRoute ℤ) × (get_route depot 1 ≡ some old)
    × Move old.status "Running"
    × (with_status "Running" school_run ≡ with_status "Running" old)
    × ((k : ℕ)
        → get_route running k
          ≡ (if k == 1 then some (with_status "Running" school_run) else get_route depot k))
update_route_status-Move_example =
    update_route_status-Move 1 "Running" (with_status "Running" school_run) depot running
      update_route_status-accepts_example

Updates-IsCompleted_example : IsCompleted 2 running
Updates-IsCompleted_example =
    Updates-IsCompleted 2 depot running
      (next 1 "Running" (with_status "Running" school_run) depot running running
        (update_route_status-accepts 1 "Running" school_run depot refl started) (done running))
      (delivered, refl, refl)

Updates-Finishes_example : Finishes 1 school_run depot
unfolding among
Updates-Finishes_example = Updates-Finishes 1 depot school_run refl refl
