-- ===== src/Trip/Timeline.antt =====
-- Trips in order of time: a vehicle's trips do not overlap as long as its coordinates come in order
-- (app/services/trip_engine.py).
use welogical_vehicle_tracki.Common.{
  ℕ, ◌≤◌, ◌≡◌, refl, false, Option, none, some, List, [], ◌∷◌, ◌++◌, arith, find?, update_first,
  find?-sound,
}
use welogical_vehicle_tracki.Float.{Float, Trig}
use welogical_vehicle_tracki.Json.{Json}
use welogical_vehicle_tracki.Models.{DateTime, Trip, Database}
use welogical_vehicle_tracki.Settings.{Settings, secs}
use welogical_vehicle_tracki.Trip.Engine.{is_active_of, complete, evaluate}
use welogical_vehicle_tracki.Trip.View.{trips_of}
use welogical_vehicle_tracki.Trip.Change.{
  Change, stay, begin, skip, drive, lose, restart, Begins, evaluate-Change,
}

module _ {F : Type 0} where
  -- The trips of `v`, in order: each runs forward and ends by the time that the next one starts,
  -- the last ends by `now`, and only the last may be running.
  abbrev pub IsTimeline : ℕ → DateTime → List (Trip F) → Type 0
  IsTimeline v now [] = Unit
  IsTimeline v now (t ∷ []) = (t.vehicle_id ≡ v) × (t.start_time ≤ t.end_time) × (t.end_time ≤ now)
  IsTimeline v now (t ∷ u ∷ ts) =
      (t.vehicle_id ≡ v)
      × (t.start_time ≤ t.end_time)
      × (t.end_time ≤ u.start_time)
      × (t.is_active ≡ false)
      × IsTimeline v now (u ∷ ts)

  module _ (v : ℕ) (now at : DateTime) (later : now ≤ at) where
    pub IsTimeline-later : (ts : List (Trip F)) → IsTimeline v now ts → IsTimeline v at ts
    IsTimeline-later [] h = tt
    IsTimeline-later (t ∷ []) h = omega arith
    IsTimeline-later (t ∷ u ∷ ts) h = (h.0, h.1, h.2, h.3, IsTimeline-later (u ∷ ts) h.4)

    -- A new trip at the end, once no trip is running.
    pub IsTimeline-append :
        (new : Trip F) (ts : List (Trip F))
        → Begins v at new
        → find? (is_active_of v) ts ≡ none
        → IsTimeline v now ts
        → IsTimeline v at (ts ++ (new ∷ []))
    IsTimeline-append new [] b free h = ground arith
    IsTimeline-append new (t ∷ []) b free h = ground arith
    IsTimeline-append new (t ∷ u ∷ ts) b free h = ground (arith, IsTimeline-append new (u ∷ ts) b)

    -- The running trip, which is the last one, driven on or closed.
    module _ (f : Trip F → Trip F) (x : Trip F) (same : (f x).vehicle_id ≡ v)
        (start : (f x).start_time ≡ x.start_time)
        (end : x.start_time ≤ x.end_time
          → x.end_time ≤ now
          → (x.start_time ≤ (f x).end_time) × ((f x).end_time ≤ at)) where
      pub IsTimeline-update :
          (ts : List (Trip F))
          → find? (is_active_of v) ts ≡ some x
          → IsTimeline v now ts
          → IsTimeline v at (update_first (is_active_of v) f ts)
      IsTimeline-update [] e h = tt
      IsTimeline-update (t ∷ []) e h = ground (arith, same, start, end)
      IsTimeline-update (t ∷ u ∷ ts) e h = ground (arith, same, start, IsTimeline-update (u ∷ ts))

  -- Once the running trip of a timeline is closed, none is running.
  pub complete-none :
      (v : ℕ) (now : DateTime) (ts : List (Trip F))
      → IsTimeline v now ts
      → find? (is_active_of v) (update_first (is_active_of v) complete ts) ≡ none
  complete-none v now [] h = refl
  complete-none v now (t ∷ []) h = ground arith
  complete-none v now (t ∷ u ∷ ts) h = ground (arith, complete-none v now (u ∷ ts))

  -- Closing changes no time.
  pub complete-IsTimeline :
      (v : ℕ) (now : DateTime) (ts : List (Trip F))
      → IsTimeline v now ts
      → IsTimeline v now (update_first (is_active_of v) complete ts)
  complete-IsTimeline v now [] h = tt
  complete-IsTimeline v now (t ∷ []) h = ground arith
  complete-IsTimeline v now (t ∷ u ∷ ts) h = ground (arith, complete-IsTimeline v now (u ∷ ts))

  -- A change no older than the trips keeps them in order, up to its own time.
  pub Change-IsTimeline :
      (v gap : ℕ) (now ts : DateTime) (before after : List (Trip F))
      → now ≤ ts
      → Change v gap ts before after
      → IsTimeline v now before
      → IsTimeline v ts after
  Change-IsTimeline v gap now ts before after le (stay free e) h =
      rw e (IsTimeline-later v now ts le before h)
  Change-IsTimeline v gap now ts before after le (begin new free b e) h =
      rw e (IsTimeline-append v now ts le new before b free h)
  Change-IsTimeline v gap now ts before after le (skip t found old e) h =
      rw e (IsTimeline-later v now ts le before h)
  Change-IsTimeline v gap now ts before after le (drive t new found fresh soon c e) h = rw e (
      IsTimeline-update v now ts le (λ _. new) t
        (ground (arith, c, find?-sound (is_active_of v) before t found)) c.start
        (λ p q. omega (arith, c.end)) before found h)
  Change-IsTimeline v gap now ts before after le (lose t found late e) h = rw e (
      IsTimeline-later v now ts le (update_first (is_active_of v) complete before)
        (complete-IsTimeline v now before h))
  Change-IsTimeline v gap now ts before after le (restart t new found late b e) h = rw e (
      IsTimeline-append v now ts le new (update_first (is_active_of v) complete before) b
        (complete-none v now before h) (complete-IsTimeline v now before h))

module _ {F : Type 0} ⦃fl : Float F⦄ ⦃tr : Trig F⦄ (cfg : Settings F) where
  -- When the trips of the vehicle are a timeline up to `now`, a coordinate at `now` or later leaves
  -- them a timeline up to its own time: in order, with no two that overlap, all but the last closed.
  pub evaluate-IsTimeline :
      (db : Database F) (v : ℕ) (lat lon speed : F) (now ts : DateTime) (ign : Json F)
      (limit : Option F)
      → now ≤ ts
      → IsTimeline v now (trips_of db v)
      → IsTimeline v ts (trips_of (evaluate cfg db v lat lon speed ts ign limit).1 v)
  evaluate-IsTimeline db v lat lon speed now ts ign limit later =
      Change-IsTimeline v (secs cfg.trip_gap_timeout) now ts (trips_of db v) _ later
        (evaluate-Change cfg db v lat lon speed ts ign limit)
