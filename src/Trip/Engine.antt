-- ===== src/Trip/Engine.antt =====
-- app/services/trip_engine.py: the state machine that opens, extends and closes the trips of a
-- vehicle from its coordinates. A query with no `order_by` returns rows in the order of insertion.
-- The signed gaps of the source are compared as whole microseconds: `leb timestamp end_time` is
-- `gap_sec <= 0`, and a gap or an idle time that is negative counts as 0, which no timeout exceeds.
use welogical_vehicle_tracki.Common.{
  ℕ, ◌+◌, ◌-◌, Bool, true, false, ◌&&◌, ◌||◌, Option, none, some, ltb, leb, ◌==◌, if◌then◌else◌,
  select, find?, update_first, latest, value_or,
}
use welogical_vehicle_tracki.Float.{Float, Trig, lit, lt, fmax, total_seconds}
use welogical_vehicle_tracki.Json.{Json, is_int, is_null}
use welogical_vehicle_tracki.Models.{
  DateTime, Trip, active, completed, cancelled, Location, DeviceConfig, Database, insert,
}
use welogical_vehicle_tracki.Settings.{Settings, secs}
use welogical_vehicle_tracki.Geo.{haversine_distance_km}

-- A datetime argument: naive, or aware and given here by its UTC time.
pub data Timestamp : Type 0 where
  naive : DateTime → Timestamp
  aware : DateTime → Timestamp

-- `timestamp.astimezone(timezone.utc).replace(tzinfo=None)` where it is aware
abbrev pub to_naive : Timestamp → DateTime
to_naive (naive t) = t
to_naive (aware t) = t

module _ {F : Type 0} where
  -- The rows of one vehicle's active trip.
  abbrev pub is_active_of : ℕ → Trip F → Bool
  is_active_of v t = t.vehicle_id == v && t.is_active

  abbrev pub active_trip : Database F → ℕ → Option (Trip F)
  active_trip db v = find? (is_active_of v) db.trips.rows

  -- An attribute write to the active trip.
  abbrev pub write_active : (Trip F → Trip F) → Database F → ℕ → Database F
  write_active f db v = record db {
    trips = record (db.trips) { rows = update_first (is_active_of v) f db.trips.rows };
  }

  -- `trip.is_active = False; trip.status = COMPLETED`
  abbrev pub complete : Trip F → Trip F
  complete t = record t { is_active = false; status = completed }

module _ {F : Type 0} ⦃fl : Float F⦄ (cfg : Settings F) where
  open fl use {decimal, le, add, div}

  abbrev speed_limit_of : Option (DeviceConfig F) → F
  speed_limit_of none = cfg.default_speed_limit
  speed_limit_of (some c) = value_or cfg.default_speed_limit c.speed_limit

  -- A failing query also falls back to the default; the model's queries do not fail.
  unfoldable pub get_vehicle_speed_limit : Database F → ℕ → F
  get_vehicle_speed_limit db v =
      speed_limit_of (find? (λ (c : DeviceConfig F). c.vehicle_id == v) db.configs.rows)

  -- `speed >= settings.TRIP_START_SPEED_THRESHOLD or ign == 1`
  abbrev pub starts : F → Json F → Bool
  starts speed ign = le cfg.trip_start_speed_threshold speed || is_int 1 ign

  -- `_start_new_trip`
  unfoldable pub start_new_trip : Database F → ℕ → F → F → F → DateTime → F → Trip F × Database F
  start_new_trip db v lat lon speed ts speed_limit =
      let new_trip : Trip F = record {
        id = db.trips.next_id;
        vehicle_id = v;
        start_time = ts;
        end_time = ts;
        duration = decimal 0 1;
        distance = decimal 0 1;
        average_speed = speed;
        maximum_speed = speed;
        idle_time = decimal 0 1;
        start_lat = lat;
        start_lon = lon;
        end_lat = lat;
        end_lon = lon;
        packet_count = 1;
        overspeed_count = if lt speed_limit speed then 1 else 0;
        status = active;
        is_active = true;
      } in
      (new_trip, record db { trips = insert new_trip db.trips })

  -- A trip of less than 100 m in less than a minute counts as GPS drift.
  abbrev pub settle : Trip F → Trip F
  settle t =
      if lt t.distance (decimal 1 1) && lt t.duration (lit 60)
      then record t { is_active = false; status = cancelled }
      else complete t

  -- No active trip: the start condition.
  abbrev pub evaluate_idle :
      Database F → ℕ → F → F → F → DateTime → Json F → F → Option (Trip F) × Database F
  evaluate_idle db v lat lon speed ts ign speed_limit =
      let (new, started) = start_new_trip db v lat lon speed ts speed_limit in
      if starts speed ign then (some new, started) else (none, db)

  module _ ⦃tr : Trig F⦄ where
    -- Step 3: the counters and the end of the active trip.
    unfoldable pub extend : Trip F → F → F → F → DateTime → Json F → F → Trip F
    extend t lat lon speed ts ign speed_limit =
        let gap_sec = total_seconds ts t.end_time in
        let d = haversine_distance_km t.end_lat t.end_lon lat lon in
        let dist_delta =
          if is_int 0 ign && lt speed cfg.trip_start_speed_threshold && lt d (decimal 1 2)
          then decimal 0 1
          else d in
        let distance = add t.distance dist_delta in
        let duration = total_seconds ts t.start_time in
        record t {
          distance = distance;
          maximum_speed = fmax t.maximum_speed speed;
          packet_count = t.packet_count + 1;
          overspeed_count =
              if lt speed_limit speed then t.overspeed_count + 1 else t.overspeed_count;
          end_time = ts;
          duration = duration;
          idle_time = if le speed (decimal 5 1) then add t.idle_time gap_sec else t.idle_time;
          end_lat = lat;
          end_lon = lon;
          average_speed =
              if lt (lit 0) duration then div distance (div duration (decimal 36000 1)) else speed;
        }

    -- The time of the last moving location of the trip, else the start of the trip.
    unfoldable pub reference_time : Database F → ℕ → Trip F → DateTime
    reference_time db v t =
        let moving =
          select
            (λ (l : Location F).
              l.vehicle_id == v
              && le cfg.trip_start_speed_threshold l.speed
              && leb t.start_time l.timestamp)
            db.locations.rows in
        elim (latest (λ (l : Location F). l.timestamp) moving) [
          | none ↦ t.start_time
          | some l ↦ l.timestamp
        ]

    -- Step 4: conditions A (ignition off) and B (idle for too long, with no ignition pin).
    unfoldable pub end_trip : Database F → ℕ → DateTime → Json F → Trip F → Trip F
    unfolding reference_time
    end_trip db v ts ign t =
        if is_int 0 ign
        then settle t
        else if (is_null ign || is_int 0 ign)
            && ltb (secs cfg.trip_end_timeout) (ts - reference_time db v t)
        then settle t
        else t

    abbrev pub evaluate_active :
        Database F → ℕ → F → F → F → DateTime → Json F → F → Trip F → Option (Trip F) × Database F
    evaluate_active db v lat lon speed ts ign speed_limit t =
        if leb ts t.end_time
        then (some t, db)
        else if ltb (secs cfg.trip_gap_timeout) (ts - t.end_time)
        then (let closed = write_active complete db v in
            let (new, started) = start_new_trip closed v lat lon speed ts speed_limit in
            if starts speed ign then (some new, started) else (none, closed))
        else (let t' = end_trip db v ts ign (extend t lat lon speed ts ign speed_limit) in
            (some t', write_active (λ _. t') db v))

    -- On whether there is an active trip.
    abbrev pub evaluate_found :
        Option (Trip F)
        → Database F
        → ℕ
        → F
        → F
        → F
        → DateTime
        → Json F
        → F
        → Option (Trip F) × Database F
    evaluate_found (some t) db v lat lon speed ts ign limit =
        evaluate_active db v lat lon speed ts ign limit t
    evaluate_found none db v lat lon speed ts ign limit =
        evaluate_idle db v lat lon speed ts ign limit

    -- `evaluate_coordinate_for_trip` once its arguments are known to be there.
    unfoldable pub evaluate :
        Database F → ℕ → F → F → F → DateTime → Json F → Option F → Option (Trip F) × Database F
    evaluate db v lat lon speed ts ign speed_limit =
        evaluate_found (active_trip db v) db v lat lon speed ts ign
          (value_or (get_vehicle_speed_limit db v) speed_limit)

    unfoldable pub evaluate_coordinate_for_trip :
        Database F
        → ℕ
        → Option F
        → Option F
        → Option F
        → Option Timestamp
        → Json F
        → Option F
        → Option (Trip F) × Database F
    unfolding evaluate
    evaluate_coordinate_for_trip db v (some lat) (some lon) (some speed) (some ts) ign speed_limit =
        evaluate db v lat lon speed (to_naive ts) ign speed_limit
    evaluate_coordinate_for_trip db v _ _ _ _ ign speed_limit = (none, db)
