-- ===== src/Fleet/Drivers.antt =====
-- app/crud/driver.py: the drivers. A time argument is naive already; the fields of an update are
-- options, `none` for one that is not set; a null for a column that has none is left to the database.
-- The texts of errors name what is missing and leave out its number.
use welogical_vehicle_tracki.Common.{
  ℕ, String, Bool, true, false, not, Option, none, some, map, if◌then◌else◌, ◌==◌, str_eq, value_or,
  find?, select, update_first, Result, ok, err, ◌>>=◌, ◌>>◌, raise_if, value_error,
  entity_not_found,
}
use welogical_vehicle_tracki.Models.{
  DateTime, Driver, DriverStatus, DriverAssignment, NotificationHistory, Database, insert,
}

-- The fields of a new driver.
pub record DriverCreate : Type 0 where
  pub driver_name : String
  pub phone_number : String
  pub email : Option String
  pub license_number : String
  pub license_expiry : DateTime
  pub emergency_contact : String
  pub status : DriverStatus

pub record DriverUpdate : Type 0 where
  pub driver_name : Option String
  pub phone_number : Option String
  pub email : Option (Option String)
  pub license_number : Option String
  pub license_expiry : Option DateTime
  pub emergency_contact : Option String
  pub status : Option DriverStatus

abbrev pub is_some {ℓ} : {A : Type ℓ} → Option A → Bool
is_some none = false
is_some (some a) = true

abbrev pub is_driver : ℕ → Driver → Bool
is_driver driver_id d = d.id == driver_id

abbrev pub has_license : String → Driver → Bool
has_license number d = str_eq d.license_number number

abbrev pub has_phone : String → Driver → Bool
has_phone number d = str_eq d.phone_number number

abbrev pub driver_row : ℕ → DriverCreate → Driver
driver_row id driver_in = record {
  id = id;
  driver_name = driver_in.driver_name;
  phone_number = driver_in.phone_number;
  email = driver_in.email;
  license_number = driver_in.license_number;
  license_expiry = driver_in.license_expiry;
  emergency_contact = driver_in.emergency_contact;
  status = driver_in.status;
}

-- The `setattr` of every field that is set.
abbrev pub updated : DriverUpdate → Driver → Driver
updated u d = record d {
  driver_name = value_or d.driver_name u.driver_name;
  phone_number = value_or d.phone_number u.phone_number;
  email = value_or d.email u.email;
  license_number = value_or d.license_number u.license_number;
  license_expiry = value_or d.license_expiry u.license_expiry;
  emergency_contact = value_or d.emergency_contact u.emergency_contact;
  status = value_or d.status u.status;
}

-- `if not row: raise EntityNotFoundError(...)`
abbrev pub found_or {ℓ} : {A : Type ℓ} → String → Option A → Result A
found_or what none = err (entity_not_found what)
found_or what (some a) = ok a

-- `ON DELETE SET NULL`
abbrev pub without_driver : ℕ → Option ℕ → Option ℕ
without_driver driver_id none = none
without_driver driver_id (some d) = if d == driver_id then none else some d

abbrev pub unnamed : ℕ → NotificationHistory → NotificationHistory
unnamed driver_id n = record n { driver_id = without_driver driver_id n.driver_id }

module _ {F : Type 0} where
  abbrev pub get_driver : ℕ → Database F → Result Driver
  get_driver driver_id db = found_or "Driver" (find? (is_driver driver_id) db.drivers.rows)

  unfoldable pub create_driver : DriverCreate → Database F → Result (Driver × Database F)
  create_driver driver_in db =
      let row = driver_row db.drivers.next_id driver_in in
      raise_if (is_some (find? (has_license driver_in.license_number) db.drivers.rows)) value_error
      >> (raise_if (is_some (find? (has_phone driver_in.phone_number) db.drivers.rows)) value_error
          >> ok (row, record db { drivers = insert row db.drivers }))

  unfoldable pub update_driver : ℕ → DriverUpdate → Database F → Result (Driver × Database F)
  update_driver driver_id u db = get_driver driver_id db >>= λ d. ok (
    updated u d,
    record db {
      drivers = record (db.drivers) {
        rows = update_first (is_driver driver_id) (updated u) db.drivers.rows;
      };
    },
  )

  -- The assignments of a driver are deleted with it, and its notifications name no driver any more
  -- (the foreign keys of driver_assignment.py and notification_history.py).
  abbrev pub dismiss : ℕ → Database F → Database F
  dismiss driver_id db = record db {
    drivers = record (db.drivers) {
      rows = select (λ (x : Driver). not (x.id == driver_id)) db.drivers.rows;
    };
    driver_assignments = record (db.driver_assignments) {
      rows =
          select (λ (a : DriverAssignment). not (a.driver_id == driver_id))
            db.driver_assignments.rows;
    };
    notifications = record (db.notifications) {
      rows = map (unnamed driver_id) db.notifications.rows;
    };
  }

  unfoldable pub delete_driver : ℕ → Database F → Result (Driver × Database F)
  delete_driver driver_id db = get_driver driver_id db >>= λ d. ok (d, dismiss driver_id db)
