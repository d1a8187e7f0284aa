-- ===== src/Trip/Frame.antt =====
-- One coordinate of a vehicle changes no trip of another vehicle and no other table
-- (app/services/trip_engine.py).
use mathlib.Core.List.{append-nil}
use welogical_vehicle_tracki.Common.{
  ℕ, ◌-◌, ◌≡◌, refl, ap, true, ◌∙◌, inl, inr, Option, some, arith, ltb, leb, select-append,
  find?-sound, Option-cases, Bool-cases, value_or, ==_refl,
}
use welogical_vehicle_tracki.Float.{Float, Trig}
use welogical_vehicle_tracki.Json.{Json}
use welogical_vehicle_tracki.Models.{DateTime, Trip, Database}
use welogical_vehicle_tracki.Settings.{Settings, secs}
use welogical_vehicle_tracki.Trip.Engine.{
  is_active_of, complete, start_new_trip, extend, end_trip, evaluate, evaluate_idle,
  evaluate_active, write_active, active_trip, get_vehicle_speed_limit, starts,
}
use welogical_vehicle_tracki.Trip.View.{is_other, others_of, others-write_active, complete_same}
use welogical_vehicle_tracki.Trip.Change.{extend-end_trip-Continues}

module _ {F : Type 0} where
  -- The rest of the database is as it was.
  pub record Frame (v : ℕ) (db db' : Database F) : Type 0 where
    pub others : others_of db' v ≡ others_of db v
    pub tables : record db' { trips = db.trips } ≡ db

  pub Frame-refl : (v : ℕ) (db : Database F) → Frame v db db
  Frame-refl v db = record { others = refl; tables = refl }

  pub Frame-trans : (v : ℕ) (a b c : Database F) → Frame v a b → Frame v b c → Frame v a c
  Frame-trans v a b c f g = record {
    others = g.others ∙ f.others;
    tables = ap (λ (d : Database F). record d { trips = a.trips }) g.tables ∙ f.tables;
  }

  pub write_active-Frame :
      (v : ℕ) (f : Trip F → Trip F) (db : Database F)
      → ((t : Trip F) → is_active_of v t ≡ true → (f t).vehicle_id ≡ v)
      → Frame v db (write_active f db v)
  write_active-Frame v f db same = record {
    others = others-write_active v f same db;
    tables = refl;
  }

module _ {F : Type 0} ⦃fl : Float F⦄ (cfg : Settings F) where
  pub start_new_trip-Frame :
      (db : Database F) (v : ℕ) (lat lon speed : F) (ts : DateTime) (limit : F)
      → Frame v db (start_new_trip cfg db v lat lon speed ts limit).1
  unfolding start_new_trip
  start_new_trip-Frame db v lat lon speed ts limit = record {
    others = select-append (is_other v) db.trips.rows _ ∙ rw (==_refl v) (append-nil _);
    tables = refl;
  }

  evaluate_idle-Frame :
      (db : Database F) (v : ℕ) (lat lon speed : F) (ts : DateTime) (ign : Json F) (limit : F)
      → Frame v db (evaluate_idle cfg db v lat lon speed ts ign limit).1
  evaluate_idle-Frame db v lat lon speed ts ign limit = elim (Bool-cases (starts cfg speed ign)) [
    | inl e ↦ rw e (start_new_trip-Frame db v lat lon speed ts limit)
    | inr e ↦ rw e (Frame-refl v db)
  ]

  module _ ⦃tr : Trig F⦄ where
    evaluate_active-Frame :
        (db : Database F) (v : ℕ) (lat lon speed : F) (ts : DateTime) (ign : Json F) (limit : F)
        (t : Trip F)
        → active_trip db v ≡ some t
        → Frame v db (evaluate_active cfg db v lat lon speed ts ign limit t).1
    evaluate_active-Frame db v lat lon speed ts ign limit t found =
        let closed = write_active complete db v in
        let new = end_trip cfg db v ts ign (extend cfg t lat lon speed ts ign limit) in
        let same : new.vehicle_id ≡ v = ground (
          arith,
          extend-end_trip-Continues cfg db v lat lon speed ts ign limit t,
          find?-sound (is_active_of v) db.trips.rows t found,
        ) in
        elim (Bool-cases (leb ts t.end_time)) [
          | inl e ↦ rw e (Frame-refl v db)
          | inr fresh ↦ elim (Bool-cases (ltb (secs cfg.trip_gap_timeout) (ts - t.end_time))) [
            | inl e ↦
                rw (fresh, e)
                  (Frame-trans v db closed _ (write_active-Frame v complete db (complete_same v))
                    (evaluate_idle-Frame closed v lat lon speed ts ign limit))
            | inr e ↦ rw (fresh, e) (write_active-Frame v (λ _. new) db (λ _ _. same))
          ]
        ]

    -- A coordinate of a vehicle leaves the trips of all other vehicles and every other table as they
    -- were.
    pub evaluate-Frame :
        (db : Database F) (v : ℕ) (lat lon speed : F) (ts : DateTime) (ign : Json F)
        (limit : Option F)
        → Frame v db (evaluate cfg db v lat lon speed ts ign limit).1
    unfolding evaluate
    evaluate-Frame db v lat lon speed ts ign limit =
        let x = value_or (get_vehicle_speed_limit cfg db v) limit in
        elim (Option-cases (active_trip db v)) [
          | inl e ↦ rw e (evaluate_idle-Frame db v lat lon speed ts ign x)
          | inr (t, e) ↦ rw e (evaluate_active-Frame db v lat lon speed ts ign x t e)
        ]
