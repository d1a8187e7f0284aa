-- ===== src/Models.antt =====
-- The rows of the database (app/models/*.py), as far as the modelled code reads or writes them, and
-- the tables. A `DateTime` is naive UTC, in microseconds. A table keeps its rows in the order of
-- insertion and the next value of its `id` sequence.
use welogical_vehicle_tracki.Common.{ℕ, ◌+◌, String, Bool, Option, List, [], ◌∷◌, ◌++◌, ℤ}
use welogical_vehicle_tracki.Json.{Dict, Json}

abbrev pub DateTime : Type 0
DateTime = ℕ

-- app/models/enums.py
pub data TripStatus : Type 0 where
  active completed cancelled : TripStatus

pub record Trip (F : Type 0) : Type 0 where
  pub id : ℕ
  pub vehicle_id : ℕ
  pub start_time : DateTime
  pub end_time : DateTime
  pub duration : F
  pub distance : F
  pub average_speed : F
  pub maximum_speed : F
  pub idle_time : F
  pub start_lat : F
  pub start_lon : F
  pub end_lat : F
  pub end_lon : F
  pub packet_count : ℕ
  pub overspeed_count : ℕ
  pub status : TripStatus
  pub is_active : Bool

pub record Location (F : Type 0) : Type 0 where
  pub id : ℕ
  pub vehicle_id : ℕ
  pub latitude : F
  pub longitude : F
  pub speed : F
  pub altitude : F
  pub timestamp : DateTime
  pub extra_data : Option (Dict F)

pub record Event : Type 0 where
  pub id : ℕ
  pub vehicle_id : ℕ
  pub txn : String
  pub event_type : String
  pub description : String
  pub severity : String
  pub msgid : Option ℤ
  pub created_at : DateTime

pub record DeviceConfig (F : Type 0) : Type 0 where
  pub id : ℕ
  pub vehicle_id : ℕ
  pub reporting_interval : Option ℤ
  pub speed_limit : Option F
  pub firmware_version : Option String
  pub hardware_version : Option String

pub record DeviceCommand : Type 0 where
  pub id : ℕ
  pub vehicle_id : ℕ
  pub command_type : String
  pub payload : Option String
  pub status : String
  pub created_at : DateTime
  pub sent_at : Option DateTime
  pub acknowledged_at : Option DateTime
  pub completed_at : Option DateTime
  pub response : Option String
  pub error_message : Option String

pub record CommandLog : Type 0 where
  pub id : ℕ
  pub command_id : ℕ
  pub vehicle_id : ℕ
  pub status : String
  pub message : Option String

pub record Vehicle : Type 0 where
  pub id : ℕ
  pub device_uid : String
  pub vehicle_name : String
  pub vehicle_type : String
  pub last_seen : Option DateTime
  pub status : String

pub record RawPacket (F : Type 0) : Type 0 where
  pub id : ℕ
  pub device_uid : String
  pub message_id : Option ℤ
  pub packet_data : Json F

-- app/models/enums.py
pub data DriverStatus : Type 0 where
  driver_active driver_suspended driver_inactive : DriverStatus

pub record Driver : Type 0 where
  pub id : ℕ
  pub driver_name : String
  pub phone_number : String
  pub email : Option String
  pub license_number : String
  pub license_expiry : DateTime
  pub emergency_contact : String
  pub status : DriverStatus

pub record DriverAssignment : Type 0 where
  pub id : ℕ
  pub vehicle_id : ℕ
  pub driver_id : ℕ
  pub assigned_at : DateTime
  pub released_at : Option DateTime
  pub status : String

pub record NotificationHistory : Type 0 where
  pub id : ℕ
  pub vehicle_id : ℕ
  pub driver_id : Option ℕ
  pub severity : String
  pub title : String
  pub message : String
  pub source_event_id : ℕ
  pub created_at : DateTime
  pub acknowledged : Bool
  pub resolved : Bool

pub record VehicleRouteAssignment (F : Type 0) : Type 0 where
  pub id : ℕ
  pub vehicle_id : ℕ
  pub route_id : ℕ
  pub assigned_at : DateTime
  pub is_active : Bool
  pub status : String
  pub completed_at : Option DateTime
  pub current_point_index : Json F
  pub progress_percentage : Json F
  pub last_coordinate_index : Json F

pub record PlannedRoute (F : Type 0) : Type 0 where
  pub id : ℕ
  pub name : String
  pub start_location : String
  pub destination : String
  pub distance : F
  pub estimated_duration : ℤ
  pub status : String

pub record PlannedRoutePoint (F : Type 0) : Type 0 where
  pub id : ℕ
  pub route_id : ℕ
  pub sequence_number : ℤ
  pub latitude : F
  pub longitude : F

pub record Table (Row : Type 0) : Type 0 where
  pub rows : List Row
  pub next_id : ℕ

pub record Database (F : Type 0) : Type 0 where
  pub vehicles : Table Vehicle
  pub raw_packets : Table (RawPacket F)
  pub locations : Table (Location F)
  pub trips : Table (Trip F)
  pub events : Table Event
  pub configs : Table (DeviceConfig F)
  pub commands : Table DeviceCommand
  pub command_logs : Table CommandLog
  pub drivers : Table Driver
  pub driver_assignments : Table DriverAssignment
  pub notifications : Table NotificationHistory
  pub planned_routes : Table (PlannedRoute F)
  pub route_points : Table (PlannedRoutePoint F)
  pub route_assignments : Table (VehicleRouteAssignment F)

-- `db.add(row)` and the flush that numbers it
abbrev pub insert : {Row : Type 0} → Row → Table Row → Table Row
insert row t = record { rows = t.rows ++ (row ∷ []); next_id = t.next_id + 1 }

abbrev pub empty_table : {Row : Type 0} → Table Row
empty_table = record { rows = []; next_id = 1 }

abbrev pub empty_database : (F : Type 0) → Database F
empty_database F = record {
  vehicles = empty_table;
  raw_packets = empty_table;
  locations = empty_table;
  trips = empty_table;
  events = empty_table;
  configs = empty_table;
  commands = empty_table;
  command_logs = empty_table;
  drivers = empty_table;
  driver_assignments = empty_table;
  notifications = empty_table;
  planned_routes = empty_table;
  route_points = empty_table;
  route_assignments = empty_table;
}
