-- ===== src/Trip/Rebuild/Blotted.antt =====
-- The ids of the trips have no influence on a coordinate that is evaluated in a session
-- (app/services/trip_engine.py).
use welogical_vehicle_tracki.Common.{
  ℕ, ◌-◌, ◌≡◌, refl, sym, ap, ◌∙◌, inl, inr, Option, none, some, ltb, leb, Option-cases, Bool-cases,
}
use welogical_vehicle_tracki.Float.{Float, Trig}
use welogical_vehicle_tracki.Json.{Json}
use welogical_vehicle_tracki.Models.{DateTime, Trip, Database}
use welogical_vehicle_tracki.Settings.{Settings, secs}
use welogical_vehicle_tracki.Trip.Engine.{
  active_trip, complete, starts, start_new_trip, extend, end_trip,
}
use welogical_vehicle_tracki.Trip.Session.{
  Session, loaded, write_held, flush, hold, begin_trip, drive_on, evaluate_in,
}
use welogical_vehicle_tracki.Trip.Rebuild.Ids.{
  forget, forget_ids, map_option, find?-forget, update_first-forget, rows-forget, forget_ids_twice,
  start_new_trip-forget, end_trip-forget,
}

module _ {F : Type 0} where
  -- A session with the ids of the trips blotted out.
  abbrev pub blot : Session F → Session F
  blot s = record { stored = forget_ids s.stored; held = map_option s.held }

  map_option_twice : (m : Option (Trip F)) → map_option m ≡ map_option (map_option m)
  map_option_twice none = refl
  map_option_twice (some t) = refl

  pub blot_twice : (s : Session F) → blot s ≡ blot (blot s)
  blot_twice s =
      λ i. record { stored = forget_ids_twice s.stored i; held = map_option_twice s.held i }

  write_held-blot :
      (v : ℕ) (db : Database F) (m : Option (Trip F))
      → forget_ids (write_held m db v) ≡ forget_ids (write_held (map_option m) (forget_ids db) v)
  write_held-blot v db none = forget_ids_twice db
  write_held-blot v db (some t) =
      rows-forget db (update_first-forget v (λ _. t) (λ _. forget t) (λ _. refl) db.trips.rows)

  pub flush-blot : (v : ℕ) (s : Session F) → forget_ids (flush v s) ≡ forget_ids (flush v (blot s))
  flush-blot v s = write_held-blot v s.stored s.held

  held-blot :
      (db : Database F) (m : Option (Trip F)) (t : Trip F)
      → loaded (blot (record { stored = db; held = m })) (forget t)
        ≡ forget (loaded (record { stored = db; held = m }) t)
  held-blot db none t = refl
  held-blot db (some m) t = refl

  pub loaded-blot : (s : Session F) (t : Trip F) → loaded (blot s) (forget t) ≡ forget (loaded s t)
  loaded-blot s t = held-blot s.stored s.held t

  pub hold-blot :
      (s : Session F) (a b : Trip F)
      → forget a ≡ forget b
      → blot (hold s a) ≡ blot (hold (blot s) b)
  hold-blot s a b e = λ i. record { stored = forget_ids_twice s.stored i; held = some (e i) }

module _ {F : Type 0} ⦃fl : Float F⦄ (cfg : Settings F) (v : ℕ) (lat lon speed : F) (ts : DateTime)
    (ign : Json F) (limit : F) where
  begin_trip-blot :
      (s : Session F)
      → blot (begin_trip cfg s v lat lon speed ts ign limit)
        ≡ blot (begin_trip cfg (blot s) v lat lon speed ts ign limit)
  begin_trip-blot s =
      let started : forget_ids (start_new_trip cfg (flush v s) v lat lon speed ts limit).1
          ≡ forget_ids (start_new_trip cfg (flush v (blot s)) v lat lon speed ts limit).1 =
        start_new_trip-forget cfg (flush v s) v lat lon speed ts limit
        ∙ ap (λ d. forget_ids (start_new_trip cfg d v lat lon speed ts limit).1) (flush-blot v s)
        ∙ sym (start_new_trip-forget cfg (flush v (blot s)) v lat lon speed ts limit) in
      elim (Bool-cases (starts cfg speed ign)) [
        | inl e ↦ rw e (λ i. record { stored = started i; held = none })
        | inr e ↦ rw e (blot_twice s)
      ]

  begin_trip-respects :
      (a b : Session F)
      → blot a ≡ blot b
      → blot (begin_trip cfg a v lat lon speed ts ign limit)
        ≡ blot (begin_trip cfg b v lat lon speed ts ign limit)
  begin_trip-respects a b e =
      begin_trip-blot a
      ∙ ap (λ s. blot (begin_trip cfg s v lat lon speed ts ign limit)) e
      ∙ sym (begin_trip-blot b)

  module _ ⦃tr : Trig F⦄ where
    drive_on-blot :
        (s : Session F) (t : Trip F)
        → blot (drive_on cfg s v lat lon speed ts ign limit t)
          ≡ blot (drive_on cfg (blot s) v lat lon speed ts ign limit (forget t))
    drive_on-blot s t = elim (Bool-cases (leb ts t.end_time)) [
      | inl e ↦ rw e (blot_twice s)
      | inr fresh ↦ elim (Bool-cases (ltb (secs cfg.trip_gap_timeout) (ts - t.end_time))) [
        | inl e ↦
            rw (fresh, e)
              (begin_trip-respects (hold s (complete t)) (hold (blot s) (complete (forget t)))
                (hold-blot s (complete t) (complete (forget t)) refl))
        | inr e ↦
            rw (fresh, e)
              (hold-blot s
                (end_trip cfg s.stored v ts ign (extend cfg t lat lon speed ts ign limit))
                (end_trip cfg (forget_ids s.stored) v ts ign
                  (extend cfg (forget t) lat lon speed ts ign limit))
                (end_trip-forget cfg s.stored v lat lon speed ts ign limit t))
      ]
    ]

    -- One coordinate does the same in sessions that differ in the ids of trips alone.
    evaluate_in-blot :
        (s : Session F)
        → blot (evaluate_in cfg s v lat lon speed ts ign limit)
          ≡ blot (evaluate_in cfg (blot s) v lat lon speed ts ign limit)
    unfolding evaluate_in
    evaluate_in-blot s =
        rw (find?-forget v s.stored.trips.rows) (elim (Option-cases (active_trip s.stored v)) [
          | inl e ↦ rw e (begin_trip-blot s)
          | inr (t, e) ↦ rw e (
              drive_on-blot s (loaded s t)
              ∙ ap (λ u. blot (drive_on cfg (blot s) v lat lon speed ts ign limit u))
                  (sym (loaded-blot s t)))
        ])

    pub evaluate_in-respects :
        (a b : Session F)
        → blot a ≡ blot b
        → blot (evaluate_in cfg a v lat lon speed ts ign limit)
          ≡ blot (evaluate_in cfg b v lat lon speed ts ign limit)
    evaluate_in-respects a b e =
        evaluate_in-blot a
        ∙ ap (λ s. blot (evaluate_in cfg s v lat lon speed ts ign limit)) e
        ∙ sym (evaluate_in-blot b)
