-- ===== src/Fleet/Routes.antt =====
-- app/crud/planned_route.py: the planned routes, their points and their assignments to vehicles. The
-- texts of errors name what is missing and leave out its number.
use mathlib.Core.Option
use welogical_vehicle_tracki.Common.{
  ℕ, String, Bool, true, false, not, ◌&&◌, Option, none, some, List, [], ◌∷◌, ◌==◌, str_eq,
  if◌then◌else◌, find?, update_first, Result, ok, ◌>>=◌, ◌>>◌, raise_if, value_error, ℤ, pos,
}
use welogical_vehicle_tracki.Float.{Float}
use welogical_vehicle_tracki.Json.{Json, int, num}
use welogical_vehicle_tracki.Models.{
  DateTime, PlannedRoute, PlannedRoutePoint, VehicleRouteAssignment, Database, Table, insert,
}
use welogical_vehicle_tracki.Fleet.Drivers.{found_or}
use welogical_vehicle_tracki.Fleet.Assignments.{update_all}

pub record PointCreate (F : Type 0) : Type 0 where
  pub sequence_number : ℤ
  pub latitude : F
  pub longitude : F

pub record PlannedRouteCreate (F : Type 0) : Type 0 where
  pub name : String
  pub start_location : String
  pub destination : String
  pub distance : F
  pub estimated_duration : ℤ
  pub points : List (PointCreate F)

-- The answer of `get_assigned_route`: the route with the progress of the assignment.
pub record AssignedRoute (F : Type 0) : Type 0 where
  pub route : PlannedRoute F
  pub current_point_index : Json F
  pub progress_percentage : Json F
  pub last_coordinate_index : Json F

-- `status in list`
unfoldable pub among : String → List String → Bool
among status [] = false
among status (s ∷ rest) = let found = among status rest in if str_eq s status then true else found

abbrev pub statuses : List String
statuses = "Pending" ∷ "Assigned" ∷ "Running" ∷ "Completed" ∷ []

-- `valid_transitions.get(current_status, [])`
abbrev pub valid_transitions : String → List String
valid_transitions current =
    if str_eq current "Pending"
    then "Assigned" ∷ []
    else if str_eq current "Assigned"
    then "Running" ∷ "Pending" ∷ []
    else if str_eq current "Running"
    then "Completed" ∷ "Assigned" ∷ []
    else []

module _ {F : Type 0} where
  abbrev pub is_route : ℕ → PlannedRoute F → Bool
  is_route route_id r = r.id == route_id

  abbrev pub is_active_on : ℕ → VehicleRouteAssignment F → Bool
  is_active_on v a = a.vehicle_id == v && a.is_active

  abbrev pub with_status : String → PlannedRoute F → PlannedRoute F
  with_status status r = record r { status = status }

  abbrev pub set_route : ℕ → (PlannedRoute F → PlannedRoute F) → Database F → Database F
  set_route route_id f db = record db {
    planned_routes = record (db.planned_routes) {
      rows = update_first (is_route route_id) f db.planned_routes.rows;
    };
  }

  abbrev pub route_row : ℕ → PlannedRouteCreate F → PlannedRoute F
  route_row id route_in = record {
    id = id;
    name = route_in.name;
    start_location = route_in.start_location;
    destination = route_in.destination;
    distance = route_in.distance;
    estimated_duration = route_in.estimated_duration;
    status = "Pending";
  }

  abbrev pub point_row : ℕ → ℕ → PointCreate F → PlannedRoutePoint F
  point_row id route_id pt = record {
    id = id;
    route_id = route_id;
    sequence_number = pt.sequence_number;
    latitude = pt.latitude;
    longitude = pt.longitude;
  }

  unfoldable pub add_points :
      ℕ → List (PointCreate F) → Table (PlannedRoutePoint F) → Table (PlannedRoutePoint F)
  add_points route_id [] t = t
  add_points route_id (pt ∷ points) t =
      add_points route_id points (insert (point_row t.next_id route_id pt) t)

  unfoldable pub create_route : PlannedRouteCreate F → Database F → PlannedRoute F × Database F
  unfolding add_points
  create_route route_in db =
      let row = route_row db.planned_routes.next_id route_in in
      (
        row,
        record db {
          planned_routes = insert row db.planned_routes;
          route_points = add_points row.id route_in.points db.route_points;
        },
      )

  abbrev pub get_route : Database F → ℕ → Option (PlannedRoute F)
  get_route db route_id = find? (is_route route_id) db.planned_routes.rows

  abbrev pub deactivate : VehicleRouteAssignment F → VehicleRouteAssignment F
  deactivate a = record a { is_active = false }

  abbrev pub active_assignment : Database F → ℕ → Option (VehicleRouteAssignment F)
  active_assignment db v = find? (is_active_on v) db.route_assignments.rows

  abbrev pub answer : VehicleRouteAssignment F → PlannedRoute F → AssignedRoute F
  answer a r = record {
    route = r;
    current_point_index = a.current_point_index;
    progress_percentage = a.progress_percentage;
    last_coordinate_index = a.last_coordinate_index;
  }

  abbrev pub assigned_route_of :
      Database F → Option (VehicleRouteAssignment F) → Option (AssignedRoute F)
  assigned_route_of db none = none
  assigned_route_of db (some a) = Option.map (answer a) (get_route db a.route_id)

  unfoldable pub get_assigned_route : Database F → ℕ → Option (AssignedRoute F)
  get_assigned_route db v = assigned_route_of db (active_assignment db v)

  unfoldable pub update_route_status :
      ℕ → String → Database F → Result (PlannedRoute F × Database F)
  unfolding among
  update_route_status route_id status db =
      found_or "PlannedRoute" (get_route db route_id) >>= λ route.
      raise_if (not (among status statuses)) value_error
      >> (raise_if
            (not (str_eq route.status status)
              && not (among status (valid_transitions route.status)))
            value_error
          >> ok (with_status status route, set_route route_id (with_status status) db))

module _ {F : Type 0} ⦃fl : Float F⦄ where
  abbrev pub new_route_assignment : ℕ → ℕ → ℕ → DateTime → VehicleRouteAssignment F
  new_route_assignment id v route_id now = record {
    id = id;
    vehicle_id = v;
    route_id = route_id;
    assigned_at = now;
    is_active = true;
    status = "ACTIVE";
    completed_at = none;
    current_point_index = int (pos 0);
    progress_percentage = num (fl.decimal 0 1);
    last_coordinate_index = int (pos 0);
  }

  abbrev pub hand_out : ℕ → ℕ → DateTime → Database F → VehicleRouteAssignment F × Database F
  hand_out v route_id now db =
      let new = new_route_assignment db.route_assignments.next_id v route_id now in
      (
        new,
        set_route route_id (with_status "Assigned") (record db {
          route_assignments = insert new (record (db.route_assignments) {
            rows =
                update_all (λ (a : VehicleRouteAssignment F). a.vehicle_id == v) deactivate
                  db.route_assignments.rows;
          });
        }),
      )

  unfoldable pub assign_route_to_vehicle :
      ℕ → ℕ → DateTime → Database F → Result (VehicleRouteAssignment F × Database F)
  unfolding update_all
  assign_route_to_vehicle v route_id now db =
      found_or "PlannedRoute" (get_route db route_id) >>= λ route. ok (hand_out v route_id now db)
