-- ===== src/Trip/Tests.antt =====
-- The trip engine on concrete coordinates of vehicle 7: a drive, a gap of more than 10 minutes and
-- another drive (app/services/trip_engine.py).
use welogical_vehicle_tracki.Common.{
  ℕ, List, length, ◌<◌, ◌≤◌, ◌⊎◌, ltb_ℤ, map, select, ◌+◌, ◌*◌, ◌≡◌, refl, subst, false, none, some,
  [], ◌∷◌, arith, ℤ, pos, ok, err, Result, Option, sort_by, latest,
}
use mathlib.Core.Option.{some-injective}
use welogical_vehicle_tracki.Geo.{haversine_distance_km}
use welogical_vehicle_tracki.Float.Fixed.{fixed_float, fixed_trig}
use welogical_vehicle_tracki.Json.{Dict, contains, get_or, is_int, null, int, obj, entry, empty}
use welogical_vehicle_tracki.Models.{Trip, Location, Database, Table, empty_database, completed}
use welogical_vehicle_tracki.Settings.{Settings, defaults, secs}
use welogical_vehicle_tracki.Trip.Engine.{
  evaluate, evaluate_coordinate_for_trip, aware, start_new_trip, extend, end_trip, reference_time,
  get_vehicle_speed_limit,
}
use welogical_vehicle_tracki.Trip.View.{trips_of}
use welogical_vehicle_tracki.Trip.Change.{Change, evaluate-Change}
use welogical_vehicle_tracki.Trip.Frame.{Frame, evaluate-Frame}
use welogical_vehicle_tracki.Trip.Timeline.{IsTimeline, evaluate-IsTimeline}
use welogical_vehicle_tracki.Trip.Invariant.{IsSound, evaluate_coordinate-IsSound}
use welogical_vehicle_tracki.Trip.Score.{
  calculate_driving_score, IsScore, calculate_driving_score-IsScore, calculate_driving_score_mono,
}
use welogical_vehicle_tracki.Trip.Downsample.{simple_skipping_downsampler}
use welogical_vehicle_tracki.Trip.Sampled.{IsSample, downsampler-IsSample}
use welogical_vehicle_tracki.Trip.Summary.{
  TripSummary, calculate_trip_summary, overspeeds_of, overspeed_of,
}
use welogical_vehicle_tracki.Trip.Stops.{IsSchedule, calculate_trip_summary-IsSchedule}
use welogical_vehicle_tracki.Trip.Overspeeds.{is_fast, runs, overspeeds_of-runs}
use welogical_vehicle_tracki.Trip.Session.{evaluate_in}
use welogical_vehicle_tracki.Trip.Rebuild.{rebuild_vehicle_trips}
use welogical_vehicle_tracki.Trip.Rebuild.Returns.{rebuild-returns, HasIo, HasIgnition, present}
use welogical_vehicle_tracki.Trip.Rebuild.Ids.{forget_ids}
use welogical_vehicle_tracki.Trip.Rebuild.Idempotence.{forget_rebuilt, rebuild_idempotent}

abbrev config : Settings ℤ
config = defaults

abbrev degrees : ℕ → ℤ
degrees n = pos (n * 1000000)

-- A location with an ignition pin.
abbrev seen : ℕ → ℕ → ℤ → ℕ → ℕ → Location ℤ
seen id second speed lat ign = record {
  id = id;
  vehicle_id = 7;
  latitude = degrees lat;
  longitude = degrees 20;
  speed = speed;
  altitude = pos 0;
  timestamp = secs second;
  extra_data = some (entry "io" (obj (entry "ign" (int (pos ign)) empty)) empty);
}

abbrev drive_log : Table (Location ℤ)
drive_log = record {
  rows =
      seen 1 100 (degrees 40) 10 1
      ∷ seen 2 160 (degrees 90) 11 1
      ∷ seen 3 2000 (degrees 50) 12 1
      ∷ seen 4 2060 (degrees 0) 13 0
      ∷ [];
  next_id = 5;
}

abbrev parked : Database ℤ
parked = record (empty_database ℤ) { locations = drive_log }

parked-IsSound : IsSound parked
parked-IsSound = record { well_formed = tt; one_active = λ _. omega arith }

-- The vehicle on its first drive.
abbrev driving : Database ℤ
unfolding evaluate_coordinate_for_trip
driving =
    (evaluate_coordinate_for_trip config parked 7 (some (degrees 10)) (some (degrees 20))
      (some (degrees 40)) (some (aware (secs 100))) null none).1

evaluate_coordinate-IsSound_example :
    IsSound
      (evaluate_coordinate_for_trip config parked 7
        (some (degrees 10))
        (some (degrees 20))
        (some (degrees 40))
        (some (aware (secs 100)))
        null
        none).1
evaluate_coordinate-IsSound_example =
    evaluate_coordinate-IsSound config parked 7 (some (degrees 10)) (some (degrees 20))
      (some (degrees 40)) (some (aware (secs 100))) null none parked-IsSound

evaluate-Change_example : Change 7 (secs 600) (secs 2000) (trips_of driving 7) (
    trips_of
      (evaluate config driving 7 (degrees 12) (degrees 20) (degrees 50) (secs 2000) null none).1
      7)
evaluate-Change_example =
    evaluate-Change config driving 7 (degrees 12) (degrees 20) (degrees 50) (secs 2000) null none

evaluate-Frame_example :
    Frame 7 driving
      (evaluate config driving 7 (degrees 12) (degrees 20) (degrees 50) (secs 2000) null none).1
evaluate-Frame_example =
    evaluate-Frame config driving 7 (degrees 12) (degrees 20) (degrees 50) (secs 2000) null none

driving-IsTimeline : IsTimeline 7 (secs 100) (trips_of driving 7)
unfolding evaluate_coordinate_for_trip evaluate start_new_trip
driving-IsTimeline = (refl, omega arith, omega arith)

evaluate-IsTimeline_example : IsTimeline 7 (secs 2000) (
    trips_of
      (evaluate config driving 7 (degrees 12) (degrees 20) (degrees 50) (secs 2000) null none).1
      7)
evaluate-IsTimeline_example =
    evaluate-IsTimeline config driving 7 (degrees 12) (degrees 20) (degrees 50) (secs 100)
      (secs 2000) null none (omega arith) driving-IsTimeline

abbrev drive : ℕ → ℕ → ℕ → ℕ → ℤ → ℤ → ℕ → Trip ℤ
drive id start lat over top idle at = record {
  id = id;
  vehicle_id = 7;
  start_time = secs start;
  end_time = secs (start + 60);
  duration = degrees 60;
  distance = pos 3185500000;
  average_speed = pos 191137645505;
  maximum_speed = top;
  idle_time = idle;
  start_lat = degrees lat;
  start_lon = degrees 20;
  end_lat = degrees at;
  end_lon = degrees 20;
  packet_count = 2;
  overspeed_count = over;
  status = completed;
  is_active = false;
}

-- The two drives of the log.
abbrev rebuilt : Database ℤ
rebuilt = record parked {
  trips = record {
    rows =
        drive 1 100 10 1 (degrees 90) (degrees 0) 11
        ∷ drive 2 2000 12 0 (degrees 50) (degrees 60) 13
        ∷ [];
    next_id = 3;
  };
}

rebuild-parked : rebuild_vehicle_trips config parked 7 ≡ ok (2, rebuilt)
unfolding rebuild_vehicle_trips evaluate_in start_new_trip extend end_trip reference_time sort_by
    contains get_or is_int haversine_distance_km latest get_vehicle_speed_limit
rebuild-parked = refl

-- The ignition goes on, off, on and off again within the gap timeout: the trip that the first "off"
-- closed is not flushed, so that it is found again and driven on, and one trip is left.
abbrev stop_and_go : Database ℤ
stop_and_go = record (empty_database ℤ) {
  locations = record {
    rows =
        seen 1 0 (degrees 40) 10 1
        ∷ seen 2 60 (degrees 0) 11 0
        ∷ seen 3 120 (degrees 40) 12 1
        ∷ seen 4 180 (degrees 0) 13 0
        ∷ [];
    next_id = 5;
  };
}

abbrev count_of : Result (ℕ × Database ℤ) → Option ℕ
count_of (ok (n, db)) = some n
count_of (err e) = none

stop_and_go-one : count_of (rebuild_vehicle_trips config stop_and_go 7) ≡ some 1
unfolding rebuild_vehicle_trips evaluate_in start_new_trip extend end_trip reference_time sort_by
    contains get_or is_int haversine_distance_km latest get_vehicle_speed_limit
stop_and_go-one = refl

rebuild_idempotent_example :
    forget_rebuilt (rebuild_vehicle_trips config rebuilt 7) ≡ ok (2, forget_ids rebuilt)
rebuild_idempotent_example =
    rebuild_idempotent config parked 7 2 rebuilt parked-IsSound rebuild-parked

abbrev io_of : ℕ → Dict ℤ
io_of ign = entry "io" (obj (entry "ign" (int (pos ign)) empty)) empty

seen-HasIgnition :
    (id second : ℕ) (speed : ℤ) (lat ign : ℕ) → HasIgnition (seen id second speed lat ign)
unfolding get_or contains
seen-HasIgnition id second speed lat ign d e =
    subst HasIo (some-injective _ _ e) (present (entry "ign" (int (pos ign)) empty) refl)

rebuild-returns_example :
    (n : ℕ) × (db : Database ℤ) × (rebuild_vehicle_trips config parked 7 ≡ ok (n, db))
rebuild-returns_example = rebuild-returns config parked 7 (
  seen-HasIgnition 1 100 (degrees 40) 10 1,
  (
    seen-HasIgnition 2 160 (degrees 90) 11 1,
    (seen-HasIgnition 3 2000 (degrees 50) 12 1, (seen-HasIgnition 4 2060 (degrees 0) 13 0, tt)),
  ),
)

calculate_driving_score-IsScore_example : IsScore 0 100 41 (calculate_driving_score config 7 3 0 0)
calculate_driving_score-IsScore_example =
    calculate_driving_score-IsScore config 7 3 0 0 (omega arith)

calculate_driving_score_mono_example :
    ltb_ℤ (calculate_driving_score config 7 3 0 0) (calculate_driving_score config 9 3 1 0) ≡ false
calculate_driving_score_mono_example =
    calculate_driving_score_mono config 7 9 3 3 0 1 0 0 (omega arith) (omega arith) (omega arith)
      (omega arith)

abbrev later_points : List (Location ℤ)
later_points =
    seen 2 160 (degrees 90) 11 1 ∷ seen 3 2000 (degrees 50) 12 1 ∷ seen 4 2060 (degrees 0) 13 0 ∷ []

downsampler-IsSample_example :
    (out : List (Location ℤ)) × (simple_skipping_downsampler
        (seen 1 100 (degrees 40) 10 1 ∷ later_points)
        2
        (pos 2)
      ≡ ok out)
    × IsSample (seen 1 100 (degrees 40) 10 1) later_points out
    × ((2 < 4) ⊎ (out ≡ seen 1 100 (degrees 40) 10 1 ∷ later_points))
    × (length out ≤ 5)
downsampler-IsSample_example =
    downsampler-IsSample (seen 1 100 (degrees 40) 10 1) later_points 2 2 (omega arith) (omega arith)

calculate_trip_summary-IsSchedule_example :
    (s : TripSummary ℤ) × (calculate_trip_summary config rebuilt 7 2 ≡ ok s)
    × IsSchedule (secs 120) (secs 2000) (secs 2060) s.stops
    × (s.stop_count ≡ length s.stops)
calculate_trip_summary-IsSchedule_example =
    calculate_trip_summary-IsSchedule config rebuilt 7 2
      (drive 2 2000 12 0 (degrees 50) (degrees 60) 13) refl (omega arith)

overspeeds_of-runs_example :
    let s = overspeeds_of (degrees 45) later_points in
    (s.overspeeds ≡ map overspeed_of (select (is_fast (degrees 45)) later_points))
    × (s.groups_count ≡ runs (degrees 45) false later_points)
    × (s.groups_count ≤ length (select (is_fast (degrees 45)) later_points))
overspeeds_of-runs_example = overspeeds_of-runs (degrees 45) later_points
