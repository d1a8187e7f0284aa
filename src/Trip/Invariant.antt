-- ===== src/Trip/Invariant.antt =====
-- What holds of the trips between two coordinates (app/services/trip_engine.py).
use mathlib.Core.Bool.{false≢true}
use welogical_vehicle_tracki.Common.{
  ℕ, ◌-◌, ◌≤◌, ◌≡◌, ◌≢◌, sym, ◌∙◌, inl, inr, true, false, Option, some, [], ◌∷◌, arith, ltb, leb,
  leb→lt, count_if, All, All-append, count_if-append, find?-All, find?-sound, count_if-none,
  count_if-update_first-le, count_if-update_first_only, update_first-All, Option-cases, Bool-cases,
  value_or,
}
use welogical_vehicle_tracki.Float.{Float, Trig}
use welogical_vehicle_tracki.Json.{Json}
use welogical_vehicle_tracki.Models.{DateTime, Trip, active, Database}
use welogical_vehicle_tracki.Settings.{Settings, secs}
use welogical_vehicle_tracki.Trip.Engine.{
  Timestamp, to_naive, evaluate_coordinate_for_trip, is_active_of, complete, settle, start_new_trip,
  extend, end_trip, evaluate, evaluate_idle, evaluate_active, write_active, active_trip,
  get_vehicle_speed_limit, starts,
}

module _ {F : Type 0} where
  -- A trip runs forward in time, counts at least its first packet and no more overspeeds than
  -- packets, and is active exactly while its status says so.
  pub record IsWellFormed (t : Trip F) : Type 0 where
    pub forward : t.start_time ≤ t.end_time
    pub counted : 1 ≤ t.packet_count
    pub overspeeds : t.overspeed_count ≤ t.packet_count
    pub active_status : t.is_active ≡ true → t.status ≡ active
    pub inactive_status : t.is_active ≡ false → t.status ≢ active

  -- Every trip is well formed, and no vehicle has two active trips.
  pub record IsSound (db : Database F) : Type 0 where
    pub well_formed : All IsWellFormed db.trips.rows
    pub one_active : (v : ℕ) → count_if (is_active_of v) db.trips.rows ≤ 1

  pub complete-IsWellFormed : (t : Trip F) → IsWellFormed t → IsWellFormed (complete t)
  complete-IsWellFormed t h = ground arith

  complete_inactive : (v : ℕ) (t : Trip F) → is_active_of v (complete t) ≡ false
  complete_inactive v t = ground arith

  -- Closing the active trip of a vehicle leaves it none.
  pub complete-count :
      (db : Database F) (v : ℕ)
      → IsSound db
      → count_if (is_active_of v) (write_active complete db v).trips.rows ≡ 0
  complete-count db v h =
      count_if-update_first_only (is_active_of v) complete db.trips.rows (complete_inactive v)
        (h.one_active v)

  pub complete-IsSound :
      (db : Database F) (v : ℕ) → IsSound db → IsSound (write_active complete db v)
  complete-IsSound db v h = record {
    well_formed =
        update_first-All IsWellFormed (is_active_of v) complete db.trips.rows complete-IsWellFormed
          h.well_formed;
    one_active = λ w. omega (
      arith,
      h.one_active w,
      count_if-update_first-le (is_active_of v) (is_active_of w) complete db.trips.rows
          (λ x _ q. absurd (false≢true (sym (complete_inactive w x) ∙ q))),
    );
  }

  active_elsewhere :
      (v w : ℕ) (new x : Trip F)
      → new.vehicle_id ≡ v
      → is_active_of v x ≡ true
      → is_active_of w new ≡ true
      → is_active_of w x ≡ true
  active_elsewhere v w new x e p q = ground arith

  -- Overwriting the active trip with a well formed trip of the same vehicle.
  pub overwrite-IsSound :
      (db : Database F) (v : ℕ) (new : Trip F)
      → IsSound db
      → IsWellFormed new
      → new.vehicle_id ≡ v
      → IsSound (write_active (λ _. new) db v)
  overwrite-IsSound db v new h good same = record {
    well_formed =
        update_first-All IsWellFormed (is_active_of v) (λ _. new) db.trips.rows (λ _ _. good)
          h.well_formed;
    one_active = λ w. omega (
      arith,
      h.one_active w,
      count_if-update_first-le (is_active_of v) (is_active_of w) (λ _. new) db.trips.rows
          (λ x p q. active_elsewhere v w new x same p q),
    );
  }

module _ {F : Type 0} ⦃fl : Float F⦄ ⦃tr : Trig F⦄ (cfg : Settings F) where
  settle-IsWellFormed : (t : Trip F) → IsWellFormed t → IsWellFormed (settle cfg t)
  settle-IsWellFormed t h = ground arith

  pub extend-IsWellFormed :
      (t : Trip F) (lat lon speed : F) (ts : DateTime) (ign : Json F) (limit : F)
      → t.end_time ≤ ts
      → IsWellFormed t
      → IsWellFormed (extend cfg t lat lon speed ts ign limit)
  unfolding extend
  extend-IsWellFormed t lat lon speed ts ign limit later h = ground arith

  pub end_trip-IsWellFormed :
      (db : Database F) (v : ℕ) (ts : DateTime) (ign : Json F) (t : Trip F)
      → IsWellFormed t
      → IsWellFormed (end_trip cfg db v ts ign t)
  unfolding end_trip
  end_trip-IsWellFormed db v ts ign t h = ground (arith, settle-IsWellFormed t h)

  -- The vehicle and the identity of a trip never change.
  end_trip-vehicle_id :
      (db : Database F) (v : ℕ) (ts : DateTime) (ign : Json F) (t : Trip F)
      → (end_trip cfg db v ts ign t).vehicle_id ≡ t.vehicle_id
  unfolding end_trip
  end_trip-vehicle_id db v ts ign t = ground arith

  extend_vehicle :
      (v : ℕ) (t : Trip F) (lat lon speed : F) (ts : DateTime) (ign : Json F) (limit : F)
      → is_active_of v t ≡ true
      → (extend cfg t lat lon speed ts ign limit).vehicle_id ≡ v
  unfolding extend
  extend_vehicle v t lat lon speed ts ign limit h = ground arith

  -- A new trip is sound where the vehicle has no active trip.
  pub start_new_trip-IsSound :
      (db : Database F) (v : ℕ) (lat lon speed : F) (ts : DateTime) (limit : F)
      → IsSound db
      → count_if (is_active_of v) db.trips.rows ≡ 0
      → IsSound (start_new_trip cfg db v lat lon speed ts limit).1
  unfolding start_new_trip
  start_new_trip-IsSound db v lat lon speed ts limit h free =
      let new : Trip F = (start_new_trip cfg db v lat lon speed ts limit).0 in
      record {
        well_formed = All-append IsWellFormed db.trips.rows (new ∷ []) h.well_formed (ground arith);
        one_active = λ w.
            ground
              (arith, h.one_active w, count_if-append (is_active_of w) db.trips.rows (new ∷ []));
      }

  evaluate_idle-IsSound :
      (db : Database F) (v : ℕ) (lat lon speed : F) (ts : DateTime) (ign : Json F) (limit : F)
      → IsSound db
      → count_if (is_active_of v) db.trips.rows ≡ 0
      → IsSound (evaluate_idle cfg db v lat lon speed ts ign limit).1
  evaluate_idle-IsSound db v lat lon speed ts ign limit h free =
      elim (Bool-cases (starts cfg speed ign)) [
        | inl e ↦ rw e (start_new_trip-IsSound db v lat lon speed ts limit h free)
        | inr e ↦ rw e h
      ]

  evaluate_active-IsSound :
      (db : Database F) (v : ℕ) (lat lon speed : F) (ts : DateTime) (ign : Json F) (limit : F)
      (t : Trip F)
      → IsSound db
      → active_trip db v ≡ some t
      → IsSound (evaluate_active cfg db v lat lon speed ts ign limit t).1
  evaluate_active-IsSound db v lat lon speed ts ign limit t h found =
      elim (Bool-cases (leb ts t.end_time)) [
        | inl e ↦ rw e h
        | inr fresh ↦ elim (Bool-cases (ltb (secs cfg.trip_gap_timeout) (ts - t.end_time))) [
          | inl e ↦
              rw (fresh, e)
                (evaluate_idle-IsSound (write_active complete db v) v lat lon speed ts ign limit
                  (complete-IsSound db v h) (complete-count db v h))
          | inr e ↦
              rw (fresh, e)
                (overwrite-IsSound db v
                  (end_trip cfg db v ts ign (extend cfg t lat lon speed ts ign limit)) h
                  (end_trip-IsWellFormed db v ts ign _ (
                    extend-IsWellFormed t lat lon speed ts ign limit
                      (omega (arith, leb→lt _ _ fresh))
                      (find?-All IsWellFormed (is_active_of v) db.trips.rows t h.well_formed
                        found)))
                  (end_trip-vehicle_id db v ts ign _
                    ∙ extend_vehicle v t lat lon speed ts ign limit
                        (find?-sound (is_active_of v) db.trips.rows t found)))
        ]
      ]

  -- Every coordinate keeps the trips of all vehicles sound.
  pub evaluate-IsSound :
      (db : Database F) (v : ℕ) (lat lon speed : F) (ts : DateTime) (ign : Json F)
      (limit : Option F)
      → IsSound db
      → IsSound (evaluate cfg db v lat lon speed ts ign limit).1
  unfolding evaluate
  evaluate-IsSound db v lat lon speed ts ign limit h =
      let x = value_or (get_vehicle_speed_limit cfg db v) limit in
      elim (Option-cases (active_trip db v)) [
        | inl e ↦ rw e (
            evaluate_idle-IsSound db v lat lon speed ts ign x h
              (count_if-none (is_active_of v) db.trips.rows e))
        | inr (t, e) ↦ rw e (evaluate_active-IsSound db v lat lon speed ts ign x t h e)
      ]

  -- When the trips are sound (each runs forward in time, counts a packet and no more overspeeds than
  -- packets, and is active exactly while its status says so; no vehicle has two active trips), they
  -- are sound after any call, with arguments missing or not.
  pub evaluate_coordinate-IsSound :
      (db : Database F) (v : ℕ) (lat lon speed : Option F) (ts : Option Timestamp) (ign : Json F)
      (limit : Option F)
      → IsSound db
      → IsSound (evaluate_coordinate_for_trip cfg db v lat lon speed ts ign limit).1
  unfolding evaluate_coordinate_for_trip
  evaluate_coordinate-IsSound db v (some lat) (some lon) (some speed) (some ts) ign limit h =
      evaluate-IsSound db v lat lon speed (to_naive ts) ign limit h
  evaluate_coordinate-IsSound db v _ _ _ _ ign limit h = h
