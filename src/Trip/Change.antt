-- ===== src/Trip/Change.antt =====
-- The trip state machine as a relation between the trips of a vehicle before and after one
-- coordinate, and the proof that `evaluate_coordinate_for_trip` (app/services/trip_engine.py)
-- follows it.
use welogical_vehicle_tracki.Common.{
  ℕ, ◌-◌, ◌≤◌, ◌<◌, ◌+◌, ◌≡◌, refl, ◌∙◌, ap, inl, inr, true, Option, none, some, List, [], ◌∷◌,
  ◌++◌, arith, ltb, leb, ltb→lt, ltb→le, leb→le, leb→lt, find?, find?-sound, update_first,
  select-append, Option-cases, Bool-cases, value_or, ==_refl,
}
use welogical_vehicle_tracki.Float.{Float, Trig}
use welogical_vehicle_tracki.Json.{Json}
use welogical_vehicle_tracki.Models.{DateTime, Trip, Database}
use welogical_vehicle_tracki.Settings.{Settings, secs}
use welogical_vehicle_tracki.Trip.Engine.{
  is_active_of, complete, start_new_trip, extend, end_trip, evaluate, evaluate_idle,
  evaluate_active, write_active, active_trip, get_vehicle_speed_limit, starts,
}
use welogical_vehicle_tracki.Trip.View.{
  is_of, trips_of, active-trips, trips-write_active, complete_same,
}

module _ {F : Type 0} where
  -- A trip of vehicle `v` that begins at `ts`.
  pub record Begins (v : ℕ) (ts : DateTime) (t : Trip F) : Type 0 where
    pub vehicle : t.vehicle_id ≡ v
    pub start : t.start_time ≡ ts
    pub end : t.end_time ≡ ts
    pub running : t.is_active ≡ true

  -- `new` is trip `t` of the same vehicle, driven on until `ts`.
  pub record Continues (ts : DateTime) (t new : Trip F) : Type 0 where
    pub id : new.id ≡ t.id
    pub vehicle : new.vehicle_id ≡ t.vehicle_id
    pub start : new.start_time ≡ t.start_time
    pub end : new.end_time ≡ ts
    pub packets : new.packet_count ≡ t.packet_count + 1

  -- What one coordinate at `ts` does to the trips of `v`, given the gap after which a trip is lost.
  pub data Change (v gap : ℕ) (ts : DateTime) (before after : List (Trip F)) : Type 0 where
    stay : find? (is_active_of v) before ≡ none → after ≡ before → Change v gap ts before after
    begin :
        (new : Trip F)
        → find? (is_active_of v) before ≡ none
        → Begins v ts new
        → after ≡ before ++ (new ∷ [])
        → Change v gap ts before after
    skip :
        (t : Trip F)
        → find? (is_active_of v) before ≡ some t
        → ts ≤ t.end_time
        → after ≡ before
        → Change v gap ts before after
    drive :
        (t new : Trip F)
        → find? (is_active_of v) before ≡ some t
        → t.end_time < ts
        → ts ≤ t.end_time + gap
        → Continues ts t new
        → after ≡ update_first (is_active_of v) (λ _. new) before
        → Change v gap ts before after
    lose :
        (t : Trip F)
        → find? (is_active_of v) before ≡ some t
        → t.end_time + gap < ts
        → after ≡ update_first (is_active_of v) complete before
        → Change v gap ts before after
    restart :
        (t new : Trip F)
        → find? (is_active_of v) before ≡ some t
        → t.end_time + gap < ts
        → Begins v ts new
        → after ≡ update_first (is_active_of v) complete before ++ (new ∷ [])
        → Change v gap ts before after

module _ {F : Type 0} ⦃fl : Float F⦄ (cfg : Settings F) where
  pub start_new_trip-Begins :
      (db : Database F) (v : ℕ) (lat lon speed : F) (ts : DateTime) (limit : F)
      → Begins v ts (start_new_trip cfg db v lat lon speed ts limit).0
  unfolding start_new_trip
  start_new_trip-Begins db v lat lon speed ts limit = ground arith

  pub trips-start_new_trip :
      (db : Database F) (v : ℕ) (lat lon speed : F) (ts : DateTime) (limit : F)
      → let (new, db') = start_new_trip cfg db v lat lon speed ts limit in
        trips_of db' v ≡ trips_of db v ++ (new ∷ [])
  unfolding start_new_trip
  trips-start_new_trip db v lat lon speed ts limit =
      select-append (is_of v) db.trips.rows _ ∙ rw (==_refl v)

  evaluate_idle-Change :
      (db : Database F) (v : ℕ) (lat lon speed : F) (ts : DateTime) (ign : Json F) (limit : F)
      (before : List (Trip F)) (gap : ℕ)
      → find? (is_active_of v) before ≡ none
      → trips_of db v ≡ before
      → Change v gap ts before (trips_of (evaluate_idle cfg db v lat lon speed ts ign limit).1 v)
  evaluate_idle-Change db v lat lon speed ts ign limit before gap free same =
      let (new, started) = start_new_trip cfg db v lat lon speed ts limit in
      elim (Bool-cases (starts cfg speed ign)) [
        | inl e ↦ begin new free (start_new_trip-Begins db v lat lon speed ts limit) (
            rw e
              (trips-start_new_trip db v lat lon speed ts limit ∙ ap (λ l. l ++ (new ∷ [])) same))
        | inr e ↦ stay free (rw e same)
      ]

  evaluate_lost-Change :
      (db : Database F) (v : ℕ) (lat lon speed : F) (ts : DateTime) (ign : Json F) (limit : F)
      (t : Trip F) (gap : ℕ)
      → find? (is_active_of v) (trips_of db v) ≡ some t
      → t.end_time + gap < ts
      → let closed = write_active complete db v in
        Change v gap ts
          (trips_of db v)
          (trips_of (evaluate_idle cfg closed v lat lon speed ts ign limit).1 v)
  evaluate_lost-Change db v lat lon speed ts ign limit t gap found late =
      let closed = write_active complete db v in
      let (new, started) = start_new_trip cfg closed v lat lon speed ts limit in
      let same = trips-write_active v complete (complete_same v) db in
      elim (Bool-cases (starts cfg speed ign)) [
        | inl e ↦ restart t new found late (start_new_trip-Begins closed v lat lon speed ts limit) (
            rw e (
              trips-start_new_trip closed v lat lon speed ts limit
              ∙ ap (λ l. l ++ (new ∷ [])) same))
        | inr e ↦ lose t found late (rw e same)
      ]

  module _ ⦃tr : Trig F⦄ where
    -- The fields that the rest of the step does not touch.
    pub extend-end_trip-Continues :
        (db : Database F) (v : ℕ) (lat lon speed : F) (ts : DateTime) (ign : Json F) (limit : F)
        (t : Trip F)
        → Continues ts t (end_trip cfg db v ts ign (extend cfg t lat lon speed ts ign limit))
    unfolding end_trip extend
    extend-end_trip-Continues db v lat lon speed ts ign limit t = ground arith

    evaluate_active-Change :
        (db : Database F) (v : ℕ) (lat lon speed : F) (ts : DateTime) (ign : Json F) (limit : F)
        (t : Trip F)
        → active_trip db v ≡ some t
        → Change v
            (secs cfg.trip_gap_timeout)
            ts
            (trips_of db v)
            (trips_of (evaluate_active cfg db v lat lon speed ts ign limit t).1 v)
    evaluate_active-Change db v lat lon speed ts ign limit t found =
        let found' : find? (is_active_of v) (trips_of db v) ≡ some t = active-trips db v ∙ found in
        elim (Bool-cases (leb ts t.end_time)) [
          | inl e ↦ skip t found' (leb→le _ _ e) (rw e)
          | inr fresh ↦ elim (Bool-cases (ltb (secs cfg.trip_gap_timeout) (ts - t.end_time))) [
            | inl e ↦
                rw (fresh, e)
                  (evaluate_lost-Change db v lat lon speed ts ign limit t
                    (secs cfg.trip_gap_timeout) found' (omega (arith, ltb→lt _ _ e)))
            | inr e ↦
                let new = end_trip cfg db v ts ign (extend cfg t lat lon speed ts ign limit) in
                let same : new.vehicle_id ≡ v = ground (
                  arith,
                  extend-end_trip-Continues db v lat lon speed ts ign limit t,
                  find?-sound (is_active_of v) db.trips.rows t found,
                ) in
                drive t new found' (leb→lt _ _ fresh)
                  (omega (arith, ltb→le _ _ e, leb→lt _ _ fresh))
                  (extend-end_trip-Continues db v lat lon speed ts ign limit t)
                  (rw (fresh, e) (trips-write_active v (λ _. new) (λ _ _. same) db))
          ]
        ]

    -- On any database, a coordinate changes the trips of its vehicle as the state machine says: with
    -- no active trip they stay or one begins at its end; with an active trip, a coordinate that is
    -- not newer changes nothing, one within the gap timeout drives that trip on to its own time, and
    -- one beyond it closes that trip, with or without a new one.
    pub evaluate-Change :
        (db : Database F) (v : ℕ) (lat lon speed : F) (ts : DateTime) (ign : Json F)
        (limit : Option F)
        → Change v
            (secs cfg.trip_gap_timeout)
            ts
            (trips_of db v)
            (trips_of (evaluate cfg db v lat lon speed ts ign limit).1 v)
    unfolding evaluate
    evaluate-Change db v lat lon speed ts ign limit =
        let x = value_or (get_vehicle_speed_limit cfg db v) limit in
        elim (Option-cases (active_trip db v)) [
          | inl e ↦ rw e (
              evaluate_idle-Change db v lat lon speed ts ign x (trips_of db v)
                (secs cfg.trip_gap_timeout) (active-trips db v ∙ e) refl)
          | inr (t, e) ↦ rw e (evaluate_active-Change db v lat lon speed ts ign x t e)
        ]
