-- ===== src/Trip/Stops.antt =====
-- The stops of a trip summary (app/services/trip_analytics.py): long enough, in order and within the
-- time of the trip.
use welogical_vehicle_tracki.Common.{
  ℕ, ◌+◌, ◌≤◌, ◌≡◌, refl, inl, inr, List, [], ◌∷◌, ◌++◌, foldl, arith, leb, leb→le, All, SortedFrom,
  some, find?, ◌&&◌, ◌==◌, length, ok, sort_by-SortedFrom, sort_by-All, select-All, Bool-cases,
}
use welogical_vehicle_tracki.Float.{Float, Trig, lt}
use welogical_vehicle_tracki.Models.{DateTime, Location, Trip, Database}
use welogical_vehicle_tracki.Settings.{Settings, secs}
use welogical_vehicle_tracki.Geo.{haversine_distance_km}
use welogical_vehicle_tracki.Trip.Engine.{get_vehicle_speed_limit}
use welogical_vehicle_tracki.Trip.Summary.{
  StopEvent, final, stop_of, evaluate_and_add_stop, slow_step, stop_step, stops_of, trip_locations,
  full_summary, summary_of, calculate_trip_summary, TripSummary,
}

module _ {F : Type 0} where
  -- Stops of at least `least`, one after the other, from one time until another.
  abbrev pub IsSchedule : ℕ → DateTime → DateTime → List (StopEvent F) → Type 0
  IsSchedule least from until [] = from ≤ until
  IsSchedule least from until (s ∷ stops) =
      (from ≤ s.start_time)
      × (s.start_time + least ≤ s.end_time)
      × IsSchedule least s.end_time until stops

  IsSchedule-later :
      (least : ℕ) (from now until : DateTime) (stops : List (StopEvent F))
      → now ≤ until
      → IsSchedule least from now stops
      → IsSchedule least from until stops
  IsSchedule-later least from now until [] h s = omega arith
  IsSchedule-later least from now until (x ∷ stops) h s =
      (s.0, s.1, IsSchedule-later least x.end_time now until stops h s.2)

  IsSchedule-append :
      (least : ℕ) (from now until : DateTime) (stops : List (StopEvent F)) (new : StopEvent F)
      → IsSchedule least from now stops
      → now ≤ new.start_time
      → new.start_time + least ≤ new.end_time
      → new.end_time ≤ until
      → IsSchedule least from until (stops ++ (new ∷ []))
  IsSchedule-append least from now until [] new h begin long end = (omega arith, long, end)
  IsSchedule-append least from now until (x ∷ stops) new h begin long end =
      (h.0, h.1, IsSchedule-append least x.end_time now until stops new h.2 begin long end)

  final-append :
      (x : Location F) (xs : List (Location F)) (l : Location F) → final x (xs ++ (l ∷ [])) ≡ l
  final-append x [] l = refl
  final-append x (y ∷ ys) l = final-append y ys l

  -- The stops end before the potential stop, which is over by `now`.
  abbrev IsScan : ℕ → DateTime → DateTime → List (Location F) × List (StopEvent F) → Type 0
  IsScan least from now ([], stops) = IsSchedule least from now stops
  IsScan least from now (x ∷ xs, stops) =
      IsSchedule least from x.timestamp stops
      × (x.timestamp ≤ (final x xs).timestamp)
      × ((final x xs).timestamp ≤ now)

  -- The locations of a trip lie within it, in order of time.
  SortedFrom-raise :
      (low at : DateTime) (locs : List (Location F))
      → SortedFrom (λ (l : Location F). l.timestamp) low locs
      → All (λ (l : Location F). at ≤ l.timestamp) locs
      → SortedFrom (λ (l : Location F). l.timestamp) at locs
  SortedFrom-raise low at [] sorted h = tt
  SortedFrom-raise low at (x ∷ xs) sorted h = (h.0, sorted.1)

  All-impl :
      (P Q : Location F → Type 0)
      → ((l : Location F) → P l → Q l)
      → (locs : List (Location F)) → All P locs
      → All Q locs
  All-impl P Q f [] h = tt
  All-impl P Q f (x ∷ xs) h = (f x h.0, All-impl P Q f xs h.1)

  trip_locations-All :
      (db : Database F) (v : ℕ) (trip : Trip F)
      → All
          (λ (l : Location F). (trip.start_time ≤ l.timestamp) × (l.timestamp ≤ trip.end_time))
          (trip_locations db v trip)
  trip_locations-All db v trip = sort_by-All _ _ _ (
      All-impl _ _ (λ l p. ground arith) _
        (select-All
          (λ (l : Location F).
            l.vehicle_id == v && leb trip.start_time l.timestamp && leb l.timestamp trip.end_time)
          db.locations.rows))

module _ {F : Type 0} ⦃fl : Float F⦄ (cfg : Settings F) where
  add_stop-IsSchedule :
      (from now : DateTime) (points : List (Location F)) (stops : List (StopEvent F))
      → IsScan (secs cfg.trip_stop_duration) from now (points, stops)
      → IsSchedule (secs cfg.trip_stop_duration) from now (evaluate_and_add_stop cfg points stops)
  add_stop-IsSchedule from now [] stops h = h
  add_stop-IsSchedule from now (x ∷ []) stops h =
      IsSchedule-later _ from x.timestamp now stops (omega arith) h.0
  add_stop-IsSchedule from now (x ∷ y ∷ ys) stops h =
      let least = secs cfg.trip_stop_duration in
      elim (Bool-cases (leb (x.timestamp + least) (final y ys).timestamp)) [
        | inl e ↦ rw e (
            IsSchedule-append least from x.timestamp now stops (stop_of x (final y ys)) h.0
              (omega arith) (leb→le _ _ e) h.2)
        | inr e ↦ rw e (IsSchedule-later least from x.timestamp now stops (omega arith) h.0)
      ]

  module _ ⦃tr : Trig F⦄ where
    slow_step-IsScan :
        (from now : DateTime) (points : List (Location F)) (stops : List (StopEvent F))
        (loc : Location F)
        → now ≤ loc.timestamp
        → IsScan (secs cfg.trip_stop_duration) from now (points, stops)
        → IsScan (secs cfg.trip_stop_duration) from loc.timestamp (slow_step cfg points stops loc)
    slow_step-IsScan from now [] stops loc later h =
        (IsSchedule-later _ from now loc.timestamp stops later h, omega arith, omega arith)
    slow_step-IsScan from now (x ∷ xs) stops loc later h =
        elim (Bool-cases (
          lt (haversine_distance_km x.latitude x.longitude loc.latitude loc.longitude)
            (fl.decimal 2 2))) [
              | inl e ↦ rw (e, final-append x xs loc) (h.0, omega arith, omega arith)
              | inr e ↦ rw e (
                IsSchedule-later _ from now loc.timestamp _ later
                    (add_stop-IsSchedule from now (x ∷ xs) stops h),
                omega arith,
                omega arith,
              )
            ]

    stop_step-IsScan :
        (from now : DateTime) (s : List (Location F) × List (StopEvent F)) (loc : Location F)
        → now ≤ loc.timestamp
        → IsScan (secs cfg.trip_stop_duration) from now s
        → IsScan (secs cfg.trip_stop_duration) from loc.timestamp (stop_step cfg s loc)
    unfolding stop_step
    stop_step-IsScan from now (points, stops) loc later h =
        elim (Bool-cases (lt loc.speed cfg.trip_stop_speed)) [
          | inl e ↦ rw e (slow_step-IsScan from now points stops loc later h)
          | inr e ↦ rw e (
              IsSchedule-later _ from now loc.timestamp _ later
                (add_stop-IsSchedule from now points stops h))
        ]

    fold-IsSchedule :
        (from now until : DateTime) (locs : List (Location F))
        (s : List (Location F) × List (StopEvent F))
        → SortedFrom (λ (l : Location F). l.timestamp) now locs
        → All (λ (l : Location F). l.timestamp ≤ until) locs
        → now ≤ until
        → IsScan (secs cfg.trip_stop_duration) from now s
        → let last = foldl (stop_step cfg) s locs in
          IsSchedule
            (secs cfg.trip_stop_duration)
            from
            until
            (evaluate_and_add_stop cfg last.0 last.1)
    fold-IsSchedule from now until [] s sorted ends le h =
        IsSchedule-later _ from now until _ le (add_stop-IsSchedule from now s.0 s.1 h)
    fold-IsSchedule from now until (loc ∷ locs) s sorted ends le h =
        fold-IsSchedule from loc.timestamp until locs (stop_step cfg s loc) sorted.1 ends.1 ends.0
          (stop_step-IsScan from now s loc sorted.0 h)

    stops_of-IsSchedule :
        (from until : DateTime) (locs : List (Location F))
        → SortedFrom (λ (l : Location F). l.timestamp) from locs
        → All (λ (l : Location F). l.timestamp ≤ until) locs
        → from ≤ until
        → IsSchedule (secs cfg.trip_stop_duration) from until (stops_of cfg locs)
    unfolding stops_of
    stops_of-IsSchedule from until locs sorted ends le =
        fold-IsSchedule from from until locs ([], []) sorted ends le (omega arith)

    summary_of-IsSchedule :
        (trip : Trip F) (limit : F) (locs : List (Location F))
        → trip.start_time ≤ trip.end_time
        → SortedFrom (λ (l : Location F). l.timestamp) trip.start_time locs
        → All (λ (l : Location F). l.timestamp ≤ trip.end_time) locs
        → let s = summary_of cfg trip limit locs in
          IsSchedule (secs cfg.trip_stop_duration) trip.start_time trip.end_time s.stops
          × (s.stop_count ≡ length s.stops)
    unfolding full_summary
    summary_of-IsSchedule trip limit [] le sorted ends = (le, refl)
    summary_of-IsSchedule trip limit (x ∷ []) le sorted ends = (le, refl)
    summary_of-IsSchedule trip limit (x ∷ y ∷ ys) le sorted ends =
        (stops_of-IsSchedule trip.start_time trip.end_time (x ∷ y ∷ ys) sorted ends le, refl)

    -- The summary of a trip that exists and does not end before it starts is returned; its stops last
    -- at least the configured duration each, follow one another without overlap, lie within the trip,
    -- and are counted.
    pub calculate_trip_summary-IsSchedule :
        (db : Database F) (v trip_id : ℕ) (trip : Trip F)
        → find? (λ (t : Trip F). t.id == trip_id && t.vehicle_id == v) db.trips.rows ≡ some trip
        → trip.start_time ≤ trip.end_time
        → (s : TripSummary F) × (calculate_trip_summary cfg db v trip_id ≡ ok s)
          × IsSchedule (secs cfg.trip_stop_duration) trip.start_time trip.end_time s.stops
          × (s.stop_count ≡ length s.stops)
    unfolding calculate_trip_summary
    calculate_trip_summary-IsSchedule db v trip_id trip found forward =
        let limit = get_vehicle_speed_limit cfg db v in
        let locs = trip_locations db v trip in
        let h =
          summary_of-IsSchedule trip limit locs forward
            (SortedFrom-raise 0 trip.start_time locs (sort_by-SortedFrom _ _)
              (All-impl _ _ (λ l p. p.0) locs (trip_locations-All db v trip)))
            (All-impl _ _ (λ l p. p.1) locs (trip_locations-All db v trip)) in
        (summary_of cfg trip limit locs, rw found, h.0, h.1)
