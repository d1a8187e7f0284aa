-- ===== src/Fleet/Assignments.antt =====
-- app/crud/driver.py: the assignments of drivers to vehicles. The clock is an argument, read once. The
-- texts of errors name what is missing and leave out its number.
use mathlib.Core.Option
use welogical_vehicle_tracki.Common.{
  ℕ, Bool, true, false, ◌&&◌, ◌||◌, Option, none, some, List, [], ◌∷◌, ◌==◌, str_eq, if◌then◌else◌,
  find?, update_first, Result, ok, ◌>>=◌, ◌>>◌, raise_if, value_error, not,
}
use welogical_vehicle_tracki.Models.{
  DateTime, DriverStatus, driver_active, DriverAssignment, Vehicle, Database, insert,
}
use welogical_vehicle_tracki.Fleet.Drivers.{found_or, get_driver}

abbrev pub is_active_status : DriverStatus → Bool
is_active_status driver_active = true
is_active_status _ = false

-- The active assignments of a vehicle and of a driver.
abbrev pub is_open : DriverAssignment → Bool
is_open a = str_eq a.status "Active"

abbrev pub is_open_of : ℕ → DriverAssignment → Bool
is_open_of v a = a.vehicle_id == v && is_open a

abbrev pub is_open_by : ℕ → DriverAssignment → Bool
is_open_by d a = a.driver_id == d && is_open a

abbrev pub release : DateTime → DriverAssignment → DriverAssignment
release now a = record a { status = "Completed"; released_at = some now }

-- `for row in query: change(row)`
unfoldable pub update_all {ℓ} : {A : Type ℓ} → (A → Bool) → (A → A) → List A → List A
update_all p f [] = []
update_all p f (x ∷ xs) = let rest = update_all p f xs in if p x then f x ∷ rest else x ∷ rest

abbrev pub new_assignment : ℕ → ℕ → ℕ → DateTime → DriverAssignment
new_assignment id v d now = record {
  id = id;
  vehicle_id = v;
  driver_id = d;
  assigned_at = now;
  released_at = none;
  status = "Active";
}

abbrev pub is_locked : Vehicle → Bool
is_locked vehicle = str_eq vehicle.status "Disabled" || str_eq vehicle.status "Archived"

module _ {F : Type 0} where
  abbrev pub get_active_assignment_by_vehicle : Database F → ℕ → Option DriverAssignment
  get_active_assignment_by_vehicle db v = find? (is_open_of v) db.driver_assignments.rows

  abbrev pub get_active_assignment_by_driver : Database F → ℕ → Option DriverAssignment
  get_active_assignment_by_driver db d = find? (is_open_by d) db.driver_assignments.rows

  -- Steps 3 to 5.
  unfoldable pub assign : ℕ → ℕ → DateTime → Database F → Database F
  unfolding update_all
  assign v d now db =
      let of_vehicle = update_all (is_open_of v) (release now) db.driver_assignments.rows in
      let of_driver = update_all (is_open_by d) (release now) of_vehicle in
      record db {
        driver_assignments =
            insert (new_assignment db.driver_assignments.next_id v d now)
              (record (db.driver_assignments) { rows = of_driver });
      }

  unfoldable pub create_assignment :
      ℕ → ℕ → DateTime → Database F → Result (Option DriverAssignment × Database F)
  unfolding assign
  create_assignment v d now db =
      found_or "Vehicle" (find? (λ (x : Vehicle). x.id == v) db.vehicles.rows) >>= λ vehicle.
      raise_if (is_locked vehicle) value_error
      >> (get_driver d db >>= λ driver.
          raise_if (not (is_active_status driver.status)) value_error
          >> (let db' = assign v d now db in ok (get_active_assignment_by_vehicle db' v, db')))

  unfoldable pub release_assignment :
      ℕ → DateTime → Database F → Option DriverAssignment × Database F
  release_assignment v now db = (
    Option.map (release now) (get_active_assignment_by_vehicle db v),
    record db {
      driver_assignments = record (db.driver_assignments) {
        rows = update_first (is_open_of v) (release now) db.driver_assignments.rows;
      };
    },
  )
