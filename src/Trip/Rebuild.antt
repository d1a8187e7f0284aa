-- ===== src/Trip/Rebuild.antt =====
-- `rebuild_vehicle_trips` of app/services/trip_engine.py.
pub mod Replay
pub mod Laws
pub mod Returns
pub mod Ids
pub mod Blotted
pub mod Idempotence
use welogical_vehicle_tracki.Common.{
  ℕ, not, Option, none, some, List, [], ◌∷◌, ◌==◌, ◌&&◌, if◌then◌else◌, select, sort_by, length,
  Result, ok, ◌>>=◌,
}
use welogical_vehicle_tracki.Float.{Float, Trig}
use welogical_vehicle_tracki.Json.{Json, null, Dict, get, get_or, contains, is_filled}
use welogical_vehicle_tracki.Models.{Trip, Location, Database}
use welogical_vehicle_tracki.Settings.{Settings}
use welogical_vehicle_tracki.Trip.Engine.{get_vehicle_speed_limit, complete, active_trip}
use welogical_vehicle_tracki.Trip.Session.{Session, fresh, loaded, flush, hold, evaluate_in}

module _ {F : Type 0} where
  -- `loc.extra_data["io"].get("ign")` where there is an "io"; it raises if that is no dictionary
  abbrev pub dict_ignition : Dict F → Result (Json F)
  dict_ignition extra =
      if is_filled extra && contains "io" extra then get "ign" (get_or "io" null extra) else ok null

  abbrev pub location_ignition : Option (Dict F) → Result (Json F)
  location_ignition none = ok null
  location_ignition (some extra) = dict_ignition extra

  -- `delete(Trip).where(Trip.vehicle_id == vehicle_id)`
  abbrev pub delete_trips : Database F → ℕ → Database F
  delete_trips db v = record db {
    trips = record (db.trips) {
      rows = select (λ (t : Trip F). not (t.vehicle_id == v)) db.trips.rows;
    };
  }

  -- The locations of a vehicle, by time.
  abbrev pub history : Database F → ℕ → List (Location F)
  history db v =
      sort_by (λ (l : Location F). l.timestamp)
        (select (λ (l : Location F). l.vehicle_id == v) db.locations.rows)

  -- Close any lingering active trip at the end of history.
  abbrev pub close_found : Option (Trip F) → Session F → Session F
  close_found none s = s
  close_found (some t) s = hold s (complete (loaded s t))

  abbrev pub close_lingering : Session F → ℕ → Session F
  close_lingering s v = close_found (active_trip s.stored v) s

module _ {F : Type 0} ⦃fl : Float F⦄ ⦃tr : Trig F⦄ (cfg : Settings F) where
  -- The loop over the locations, in one session.
  unfoldable pub replay : ℕ → F → List (Location F) → Session F → Result (Session F)
  replay v speed_limit [] s = ok s
  replay v speed_limit (loc ∷ locs) s = location_ignition loc.extra_data >>= λ ign.
      replay v speed_limit locs
        (evaluate_in cfg s v loc.latitude loc.longitude loc.speed loc.timestamp ign speed_limit)

  -- The count of the trips, and the database that they are in.
  unfoldable pub rebuild_vehicle_trips : Database F → ℕ → Result (ℕ × Database F)
  unfolding replay
  rebuild_vehicle_trips db v =
      let cleared = delete_trips db v in
      replay v (get_vehicle_speed_limit cfg cleared v) (history cleared v) (fresh cleared)
      >>= λ rebuilt.
          (let done = flush v (close_lingering rebuilt v) in
            ok (length (select (λ (t : Trip F). t.vehicle_id == v) done.trips.rows), done))
