-- ===== src/Trip/Started.antt =====
-- A vehicle's active trip has started before the coordinate that is evaluated, if it had before
-- (app/services/trip_engine.py).
use welogical_vehicle_tracki.Common.{
  ℕ, ◌-◌, ◌≤◌, ◌≡◌, true, inl, inr, Option, some, arith, ltb, leb, All, All-append, find?-All,
  find?-sound, update_first-All, Option-cases, Bool-cases, value_or, sym, subst,
}
use welogical_vehicle_tracki.Float.{Float, Trig}
use welogical_vehicle_tracki.Json.{Json}
use welogical_vehicle_tracki.Models.{DateTime, Trip, Database}
use welogical_vehicle_tracki.Settings.{Settings, secs}
use welogical_vehicle_tracki.Trip.Engine.{
  is_active_of, complete, start_new_trip, extend, end_trip, evaluate, evaluate_idle,
  evaluate_active, write_active, active_trip, get_vehicle_speed_limit, starts,
}
use welogical_vehicle_tracki.Trip.Change.{extend-end_trip-Continues}

module _ {F : Type 0} where
  abbrev pub IsStarted : ℕ → DateTime → Trip F → Type 0
  IsStarted v ts t = is_active_of v t ≡ true → t.start_time ≤ ts

  -- The active trips of a vehicle have started.
  abbrev pub Started : ℕ → DateTime → Database F → Type 0
  Started v ts db = All (IsStarted v ts) db.trips.rows

  complete-IsStarted : (v : ℕ) (ts : DateTime) (t : Trip F) → IsStarted v ts (complete t)
  complete-IsStarted v ts t h = ground arith

module _ {F : Type 0} ⦃fl : Float F⦄ ⦃tr : Trig F⦄ (cfg : Settings F) (v : ℕ) (ts : DateTime) where
  evaluate_idle-Started :
      (db : Database F) (lat lon speed : F) (ign : Json F) (limit : F)
      → Started v ts db
      → Started v ts (evaluate_idle cfg db v lat lon speed ts ign limit).1
  unfolding start_new_trip
  evaluate_idle-Started db lat lon speed ign limit h = elim (Bool-cases (starts cfg speed ign)) [
    | inl e ↦ rw e (All-append (IsStarted v ts) db.trips.rows _ h ((λ _. omega arith), tt))
    | inr e ↦ rw e h
  ]

  evaluate_active-Started :
      (db : Database F) (lat lon speed : F) (ign : Json F) (limit : F) (t : Trip F)
      → Started v ts db
      → active_trip db v ≡ some t
      → Started v ts (evaluate_active cfg db v lat lon speed ts ign limit t).1
  evaluate_active-Started db lat lon speed ign limit t h found =
      let new = end_trip cfg db v ts ign (extend cfg t lat lon speed ts ign limit) in
      let active = find?-sound (is_active_of v) db.trips.rows t found in
      let begun : t.start_time ≤ ts =
        find?-All (IsStarted v ts) (is_active_of v) db.trips.rows t h found active in
      let same : new.start_time ≤ ts =
        subst (λ n. n ≤ ts)
          (sym (extend-end_trip-Continues cfg db v lat lon speed ts ign limit t).start) begun in
      elim (Bool-cases (leb ts t.end_time)) [
        | inl e ↦ rw e h
        | inr fresh ↦ elim (Bool-cases (ltb (secs cfg.trip_gap_timeout) (ts - t.end_time))) [
          | inl e ↦
              rw (fresh, e)
                (evaluate_idle-Started (write_active complete db v) lat lon speed ign limit (
                  update_first-All (IsStarted v ts) (is_active_of v) complete db.trips.rows
                    (λ x _. complete-IsStarted v ts x) h))
          | inr e ↦
              rw (fresh, e)
                (update_first-All (IsStarted v ts) (is_active_of v) (λ _. new) db.trips.rows
                  (λ x _ _. same) h)
        ]
      ]

  pub evaluate-Started :
      (db : Database F) (lat lon speed : F) (ign : Json F) (limit : Option F)
      → Started v ts db
      → Started v ts (evaluate cfg db v lat lon speed ts ign limit).1
  unfolding evaluate
  evaluate-Started db lat lon speed ign limit h =
      let x = value_or (get_vehicle_speed_limit cfg db v) limit in
      elim (Option-cases (active_trip db v)) [
        | inl e ↦ rw e (evaluate_idle-Started db lat lon speed ign x h)
        | inr (t, e) ↦ rw e (evaluate_active-Started db lat lon speed ign x t h e)
      ]
