-- ===== src/Trip/Summary/Steps.antt =====
-- The rows of app/schemas/trip_analytics.py and the steps of the loop of app/services/trip_analytics.py,
-- one for each of its parts, which share no variable.
use welogical_vehicle_tracki.Common.{
  ℕ, ◌+◌, Bool, true, false, Option, none, some, List, [], ◌∷◌, ◌++◌, foldl, leb, if◌then◌else◌, ℤ,
  ◌&&◌, ◌==◌, select, sort_by, pos,
}
use welogical_vehicle_tracki.Float.{Float, lt, fmax, total_seconds}
use welogical_vehicle_tracki.Models.{DateTime, Trip, Location, Database}
use welogical_vehicle_tracki.Settings.{secs}

-- app/schemas/trip_analytics.py
pub record StopEvent (F : Type 0) : Type 0 where
  pub start_time : DateTime
  pub end_time : DateTime
  pub duration : F
  pub latitude : F
  pub longitude : F

pub record OverspeedEvent (F : Type 0) : Type 0 where
  pub timestamp : DateTime
  pub speed : F
  pub latitude : F
  pub longitude : F

pub record TripSummary (F : Type 0) : Type 0 where
  pub trip_id : ℕ
  pub vehicle_id : ℕ
  pub duration : F
  pub distance : F
  pub average_speed : F
  pub moving_time : F
  pub idle_time : F
  pub average_moving_speed : F
  pub maximum_speed : F
  pub packet_count : ℕ
  pub average_packet_interval : F
  pub stop_count : ℕ
  pub longest_stop : F
  pub overspeed_count : ℕ
  pub driving_score : ℤ
  pub stops : List (StopEvent F)
  pub overspeeds : List (OverspeedEvent F)

-- The overspeeds so far, the count of their groups and whether one is open.
pub record Overspeeding (F : Type 0) : Type 0 where
  pub overspeeds : List (OverspeedEvent F)
  pub groups_count : ℕ
  pub in_group : Bool

-- The start of an idle period, and the count of the long ones: `idle_dur >= 300`.
abbrev pub long_idle : DateTime → DateTime → ℕ → ℕ
long_idle start now count = if leb (start + secs 300) now then count + 1 else count

-- The lingering idle period at the end of the trip.
abbrev pub close_idle : DateTime → Option DateTime × ℕ → ℕ
close_idle now (none, count) = count
close_idle now (some start, count) = long_idle start now count

-- The tracking of idle periods.
abbrev pub idle_rest : DateTime → Option DateTime × ℕ → Option DateTime × ℕ
idle_rest now (none, count) = (some now, count)
idle_rest now (some start, count) = (some start, count)

module _ {F : Type 0} where
  -- `points[-1]` of the points `x ∷ xs`
  abbrev pub final : Location F → List (Location F) → Location F
  final x [] = x
  final x (y ∷ ys) = final y ys

  -- The locations of a trip, in order of time.
  abbrev pub trip_locations : Database F → ℕ → Trip F → List (Location F)
  trip_locations db v trip =
      sort_by (λ (l : Location F). l.timestamp)
        (select
          (λ (l : Location F).
            l.vehicle_id == v && leb trip.start_time l.timestamp && leb l.timestamp trip.end_time)
          db.locations.rows)

module _ {F : Type 0} ⦃fl : Float F⦄ where
  open fl use {decimal, le, add, sub, div, str_int}

  abbrev pub stop_of : Location F → Location F → StopEvent F
  stop_of first last = record {
    start_time = first.timestamp;
    end_time = last.timestamp;
    duration = total_seconds last.timestamp first.timestamp;
    latitude = first.latitude;
    longitude = first.longitude;
  }

  unfoldable pub idle_step : Option DateTime × ℕ → Location F → Option DateTime × ℕ
  idle_step s loc =
      if le loc.speed (decimal 5 1)
      then idle_rest loc.timestamp s
      else (none, close_idle loc.timestamp s)

  abbrev pub overspeed_of : Location F → OverspeedEvent F
  overspeed_of loc = record {
    timestamp = loc.timestamp;
    speed = loc.speed;
    latitude = loc.latitude;
    longitude = loc.longitude;
  }

  -- Overspeed detection and grouping.
  unfoldable pub overspeed_step : F → Overspeeding F → Location F → Overspeeding F
  overspeed_step speed_limit s loc =
      if lt speed_limit loc.speed
      then record {
        overspeeds = s.overspeeds ++ (overspeed_of loc ∷ []);
        groups_count = if s.in_group then s.groups_count else s.groups_count + 1;
        in_group = true;
      }
      else record s { in_group = false }

  -- `max((s.duration for s in stops), default=0.0)`
  abbrev pub longest : List (StopEvent F) → F
  longest [] = decimal 0 1
  longest (s ∷ stops) = foldl (λ (m : F) (x : StopEvent F). fmax m x.duration) s.duration stops

  unfoldable pub overspeeds_of : F → List (Location F) → Overspeeding F
  unfolding overspeed_step
  overspeeds_of speed_limit locations =
      foldl (overspeed_step speed_limit)
        (record { overspeeds = []; groups_count = 0; in_group = false }) locations

  -- The packet intervals, with the location before.
  abbrev pub interval_step : Option (Location F) × F → Location F → Option (Location F) × F
  interval_step (none, total) loc = (some loc, total)
  interval_step (some before, total) loc =
      (some loc, add total (total_seconds loc.timestamp before.timestamp))

  -- The fallback for fewer than two locations.
  abbrev pub short_summary : Trip F → ℕ → TripSummary F
  short_summary trip packet_count = record {
    trip_id = trip.id;
    vehicle_id = trip.vehicle_id;
    duration = trip.duration;
    distance = trip.distance;
    average_speed = trip.average_speed;
    moving_time = trip.duration;
    idle_time = trip.idle_time;
    average_moving_speed = trip.average_speed;
    maximum_speed = trip.maximum_speed;
    packet_count = packet_count;
    average_packet_interval = decimal 0 1;
    stop_count = 0;
    longest_stop = decimal 0 1;
    overspeed_count = trip.overspeed_count;
    driving_score = pos 100;
    stops = [];
    overspeeds = [];
  }
