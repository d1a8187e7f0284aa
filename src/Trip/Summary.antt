-- ===== src/Trip/Summary.antt =====
-- app/services/trip_analytics.py: the summary of a trip. Whole seconds are compared in microseconds.
-- The loop over the locations is a fold with one step for each of its parts, which share no variable.
mod Steps
unfoldable pub use Steps.*
use Prim.Native.String.{◌++◌ as concat}
use welogical_vehicle_tracki.Common.{
  ℕ, ◌+◌, ◌-◌, Bool, true, false, not, ◌&&◌, Option, none, some, List, [], ◌∷◌, ◌++◌, foldl, length,
  leb, ltb, ◌==◌, if◌then◌else◌, select, find?, sort_by, ℤ, pos, Result, ok, err, entity_not_found,
}
use welogical_vehicle_tracki.Float.{Float, Trig, lit, lt, fmax, fmin, total_seconds}
use welogical_vehicle_tracki.Models.{DateTime, Trip, Location, Database}
use welogical_vehicle_tracki.Settings.{Settings, secs}
use welogical_vehicle_tracki.Geo.{haversine_distance_km}
use welogical_vehicle_tracki.Trip.Engine.{get_vehicle_speed_limit}
use welogical_vehicle_tracki.Trip.Score.{calculate_driving_score}

module _ {F : Type 0} ⦃fl : Float F⦄ (cfg : Settings F) where
  open fl use {decimal, le, add, sub, div, str_int}

  -- `_evaluate_and_add_stop`
  abbrev pub evaluate_and_add_stop : List (Location F) → List (StopEvent F) → List (StopEvent F)
  evaluate_and_add_stop [] stops = stops
  evaluate_and_add_stop (x ∷ []) stops = stops
  evaluate_and_add_stop (x ∷ y ∷ ys) stops =
      let last = final y ys in
      if leb (x.timestamp + secs cfg.trip_stop_duration) last.timestamp
      then stops ++ (stop_of x last ∷ [])
      else stops

  module _ ⦃tr : Trig F⦄ where
    -- A slow location: it opens a potential stop, stays within 20 meters of its start, or ends it.
    abbrev pub slow_step :
        List (Location F) → List (StopEvent F) → Location F → List (Location F) × List (StopEvent F)
    slow_step [] stops loc = (loc ∷ [], stops)
    slow_step (start ∷ points) stops loc =
        if lt (haversine_distance_km start.latitude start.longitude loc.latitude loc.longitude)
          (decimal 2 2)
        then ((start ∷ points) ++ (loc ∷ []), stops)
        else (loc ∷ [], evaluate_and_add_stop (start ∷ points) stops)

    -- Stop detection.
    unfoldable pub stop_step :
        List (Location F) × List (StopEvent F) → Location F → List (Location F) × List (StopEvent F)
    stop_step (points, stops) loc =
        if lt loc.speed cfg.trip_stop_speed
        then slow_step points stops loc
        else ([], evaluate_and_add_stop points stops)

    -- The stops of a trip, the lingering one at its end included.
    unfoldable pub stops_of : List (Location F) → List (StopEvent F)
    unfolding stop_step
    stops_of locations =
        let (points, stops) = foldl stop_step ([], []) locations in
        evaluate_and_add_stop points stops

    unfoldable pub full_summary : Trip F → F → Location F → List (Location F) → TripSummary F
    unfolding idle_step
    full_summary trip speed_limit first rest =
        let locations = first ∷ rest in
        let stops = stops_of locations in
        let speeding = overspeeds_of speed_limit locations in
        let idles = close_idle (final first rest).timestamp (foldl idle_step (none, 0) locations) in
        let duration = total_seconds trip.end_time trip.start_time in
        let stopped = foldl (λ (t : F) (s : StopEvent F). add t s.duration) (lit 0) stops in
        let moving_time = fmax (decimal 0 1) (sub duration stopped) in
        let average_moving_speed =
          if lt (lit 0) moving_time
          then div trip.distance (div moving_time (decimal 36000 1))
          else decimal 0 1 in
        record {
          trip_id = trip.id;
          vehicle_id = trip.vehicle_id;
          duration = duration;
          distance = trip.distance;
          average_speed = trip.average_speed;
          moving_time = moving_time;
          idle_time = trip.idle_time;
          average_moving_speed = fmin average_moving_speed trip.maximum_speed;
          maximum_speed = trip.maximum_speed;
          packet_count = length locations;
          average_packet_interval =
              div (foldl interval_step (none, decimal 0 1) locations).1
                (lit (length locations - 1));
          stop_count = length stops;
          longest_stop = longest stops;
          overspeed_count = length speeding.overspeeds;
          driving_score = calculate_driving_score cfg speeding.groups_count idles 0 0;
          stops = stops;
          overspeeds = speeding.overspeeds;
        }

    -- On the number of locations.
    abbrev pub summary_of : Trip F → F → List (Location F) → TripSummary F
    summary_of trip speed_limit [] = short_summary trip 0
    summary_of trip speed_limit (x ∷ []) = short_summary trip 1
    summary_of trip speed_limit (x ∷ y ∷ ys) = full_summary trip speed_limit x (y ∷ ys)

    abbrev pub summary_found : Database F → ℕ → ℕ → Option (Trip F) → Result (TripSummary F)
    summary_found db v trip_id none = err (
        entity_not_found (
          concat "Trip with ID "
            (concat (str_int (pos trip_id)) (concat " not found for vehicle " (str_int (pos v))))))
    summary_found db v trip_id (some trip) =
        ok (summary_of trip (get_vehicle_speed_limit cfg db v) (trip_locations db v trip))

    unfoldable pub calculate_trip_summary : Database F → ℕ → ℕ → Result (TripSummary F)
    calculate_trip_summary db v trip_id =
        summary_found db v trip_id
          (find? (λ (t : Trip F). t.id == trip_id && t.vehicle_id == v) db.trips.rows)
