-- ===== src/Trip/View.antt =====
-- `evaluate_coordinate_for_trip` seen from one vehicle: what it does to the list of that vehicle's
-- trips, and that it touches nothing else (app/services/trip_engine.py).
use welogical_vehicle_tracki.Common.{
  ℕ, ◌≡◌, Bool, true, not, List, arith, ◌==◌, select, find?, update_first, find?-select,
  select-update_first, select-update_first_inside,
}
use welogical_vehicle_tracki.Models.{Trip, Database}
use welogical_vehicle_tracki.Trip.Engine.{is_active_of, complete, write_active, active_trip}

module _ {F : Type 0} where
  -- The trips of a vehicle, and those of all others.
  abbrev pub is_of : ℕ → Trip F → Bool
  is_of v t = t.vehicle_id == v

  abbrev pub is_other : ℕ → Trip F → Bool
  is_other v t = not (t.vehicle_id == v)

  abbrev pub trips_of : Database F → ℕ → List (Trip F)
  trips_of db v = select (is_of v) db.trips.rows

  abbrev pub others_of : Database F → ℕ → List (Trip F)
  others_of db v = select (is_other v) db.trips.rows

  abbrev pub is_running : Trip F → Bool
  is_running t = t.is_active

  -- A write to the active trip that keeps its vehicle shows in that vehicle's list alone.
  module _ (v : ℕ) (f : Trip F → Trip F)
      (same : (t : Trip F) → is_active_of v t ≡ true → (f t).vehicle_id ≡ v) where
    pub others-write_active : (db : Database F) → others_of (write_active f db v) v ≡ others_of db v
    others-write_active db =
        select-update_first (is_active_of v) (is_other v) f db.trips.rows
          (λ t h. ground (arith, same t h))

    pub trips-write_active :
        (db : Database F)
        → trips_of (write_active f db v) v ≡ update_first (is_active_of v) f (trips_of db v)
    trips-write_active db =
        select-update_first_inside (is_active_of v) (is_of v) f db.trips.rows
          (λ t h. ground (arith, same t h))

  pub complete_same : (v : ℕ) (t : Trip F) → is_active_of v t ≡ true → (complete t).vehicle_id ≡ v
  complete_same v t h = ground arith

  pub active-trips :
      (db : Database F) (v : ℕ) → find? (is_active_of v) (trips_of db v) ≡ active_trip db v
  active-trips db v = find?-select (is_active_of v) (is_of v) db.trips.rows (λ t h. ground arith)
