-- ===== src/Trip/Session.antt =====
-- What a session sees of the trips (app/database.py, app/services/trip_engine.py): with
-- `autoflush=False` a query reads the rows as they are stored, but returns a trip that the session has
-- changed as it is in memory. The trip engine changes only the trip that the query for the active
-- trip finds, which stays the same one until a flush.
use welogical_vehicle_tracki.Common.{ℕ, ◌-◌, Option, none, some, ltb, leb, if◌then◌else◌, value_or}
use welogical_vehicle_tracki.Float.{Float, Trig}
use welogical_vehicle_tracki.Json.{Json}
use welogical_vehicle_tracki.Models.{DateTime, Trip, Database}
use welogical_vehicle_tracki.Settings.{Settings, secs}
use welogical_vehicle_tracki.Trip.Engine.{
  active_trip, write_active, complete, starts, start_new_trip, extend, end_trip,
}

-- The database as stored, and the active trip of the vehicle where the session has changed it.
pub record Session (F : Type 0) : Type 0 where
  pub stored : Database F
  pub held : Option (Trip F)

module _ {F : Type 0} where
  -- A session that has changed no trip.
  abbrev pub fresh : Database F → Session F
  fresh db = record { stored = db; held = none }

  -- The trip `t` that a query has found, as the session knows it.
  abbrev pub loaded : Session F → Trip F → Trip F
  loaded s t = value_or t s.held

  abbrev pub write_held : Option (Trip F) → Database F → ℕ → Database F
  write_held none db v = db
  write_held (some t) db v = write_active (λ _. t) db v

  -- `db.flush()`
  abbrev pub flush : ℕ → Session F → Database F
  flush v s = write_held s.held s.stored v

  abbrev pub hold : Session F → Trip F → Session F
  hold s t = record s { held = some t }

module _ {F : Type 0} ⦃fl : Float F⦄ (cfg : Settings F) where
  -- The start of a new trip flushes the session.
  abbrev pub begin_trip : Session F → ℕ → F → F → F → DateTime → Json F → F → Session F
  begin_trip s v lat lon speed ts ign speed_limit =
      let started = (start_new_trip cfg (flush v s) v lat lon speed ts speed_limit).1 in
      if starts cfg speed ign then fresh started else s

  module _ ⦃tr : Trig F⦄ where
    -- The active trip, as it is in memory.
    abbrev pub drive_on : Session F → ℕ → F → F → F → DateTime → Json F → F → Trip F → Session F
    drive_on s v lat lon speed ts ign speed_limit t =
        if leb ts t.end_time
        then s
        else if ltb (secs cfg.trip_gap_timeout) (ts - t.end_time)
        then begin_trip (hold s (complete t)) v lat lon speed ts ign speed_limit
        else hold s (end_trip cfg s.stored v ts ign (extend cfg t lat lon speed ts ign speed_limit))

    abbrev pub evaluate_with :
        Option (Trip F) → Session F → ℕ → F → F → F → DateTime → Json F → F → Session F
    evaluate_with none s v lat lon speed ts ign speed_limit =
        begin_trip s v lat lon speed ts ign speed_limit
    evaluate_with (some t) s v lat lon speed ts ign speed_limit =
        drive_on s v lat lon speed ts ign speed_limit (loaded s t)

    -- `evaluate_coordinate_for_trip` in a session that may hold changes.
    unfoldable pub evaluate_in : Session F → ℕ → F → F → F → DateTime → Json F → F → Session F
    evaluate_in s v lat lon speed ts ign speed_limit =
        evaluate_with (active_trip s.stored v) s v lat lon speed ts ign speed_limit
