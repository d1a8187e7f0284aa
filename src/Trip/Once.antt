-- ===== src/Trip/Once.antt =====
-- One coordinate in a session that has changed no trip before (app/services/trip_engine.py).
use welogical_vehicle_tracki.Common.{
  ℕ, ◌-◌, ◌≤◌, ◌≡◌, refl, subst, sym, ◌∙◌, ap, true, none, some, arith, inl, inr, ltb, leb, leb→lt,
  find?, find?-All, find?-sound, update_first, Option-cases, Bool-cases, Option, Bool, List, [],
  ◌∷◌,
}
use welogical_vehicle_tracki.Float.{Float, Trig}
use welogical_vehicle_tracki.Json.{Json}
use welogical_vehicle_tracki.Models.{DateTime, Trip, Database}
use welogical_vehicle_tracki.Settings.{Settings, secs}
use welogical_vehicle_tracki.Trip.Engine.{
  is_active_of, active_trip, write_active, evaluate, complete, starts, extend, end_trip,
}
use welogical_vehicle_tracki.Trip.Invariant.{
  IsWellFormed, IsSound, overwrite-IsSound, evaluate-IsSound, complete-IsWellFormed,
  extend-IsWellFormed, end_trip-IsWellFormed,
}
use welogical_vehicle_tracki.Trip.Change.{extend-end_trip-Continues}
use welogical_vehicle_tracki.Trip.Frame.{start_new_trip-Frame}
use welogical_vehicle_tracki.Trip.Started.{IsStarted, Started, evaluate-Started}
use welogical_vehicle_tracki.Trip.Session.{
  Session, fresh, loaded, write_held, flush, hold, evaluate_in,
}
use welogical_vehicle_tracki.Trip.Carried.{flush-evaluate_in}

module _ {A : Type 0} where
  update_first-none :
      (p : A → Bool) (f : A → A) (xs : List A) → find? p xs ≡ none → update_first p f xs ≡ xs
  update_first-none p f [] e = refl
  update_first-none p f (x ∷ xs) e = ground (arith, update_first-none p f xs)

module _ {F : Type 0} (v : ℕ) (ts : DateTime) where
  -- The trip `m` is well formed, of the vehicle, and started by `ts`.
  pub record IsReady (m : Trip F) : Type 0 where
    pub well_formed : IsWellFormed m
    pub vehicle : m.vehicle_id ≡ v
    pub started : m.start_time ≤ ts

  -- A coordinate leaves all it did stored, or a change of the active trip in memory.
  data IsOnce (db : Database F) (s : Session F) : Type 0 where
    renewed : s ≡ fresh (flush v s) → IsOnce db s
    changed : (m : Trip F) → s ≡ hold (fresh db) m → IsReady m → IsOnce db s

  -- The trips as stored are sound, and the active one is ready, as the session knows it.
  pub record IsSafe (s : Session F) : Type 0 where
    pub sound : IsSound s.stored
    pub ready : (t : Trip F) → active_trip s.stored v ≡ some t → IsReady (loaded s t)

  kept-IsSafe :
      (db : Database F) (held : Option (Trip F))
      → IsSafe (record { stored = db; held = held })
      → IsSound (write_held held db v)
  kept-IsSafe db none h = h.sound
  kept-IsSafe db (some m) h = elim (Option-cases (active_trip db v)) [
    | inl e ↦
        subst IsSound
          (sym (
            ap (λ l. record db { trips = record (db.trips) { rows = l } })
              (update_first-none (is_active_of v) (λ _. m) db.trips.rows e)))
          h.sound
    | inr (t, e) ↦ let r = h.ready t e in overwrite-IsSound db v m h.sound r.well_formed r.vehicle
  ]

  -- A flush stores sound trips.
  pub flush-IsSafe : (s : Session F) → IsSafe s → IsSound (flush v s)
  flush-IsSafe s h = kept-IsSafe s.stored s.held h

  found-IsReady :
      (db : Database F) (t : Trip F)
      → IsSound db
      → Started v ts db
      → active_trip db v ≡ some t
      → IsReady t
  found-IsReady db t h started found =
      let mine : is_active_of v t ≡ true = find?-sound (is_active_of v) db.trips.rows t found in
      record {
        well_formed = find?-All IsWellFormed (is_active_of v) db.trips.rows t h.well_formed found;
        vehicle = ground (arith, mine);
        started = find?-All (IsStarted v ts) (is_active_of v) db.trips.rows t started found mine;
      }

  fresh-IsSafe : (db : Database F) → IsSound db → Started v ts db → IsSafe (fresh db)
  fresh-IsSafe db h started = record {
    sound = h;
    ready = λ t found. found-IsReady db t h started found;
  }

module _ {F : Type 0} ⦃fl : Float F⦄ ⦃tr : Trig F⦄ (cfg : Settings F) (v : ℕ) (ts : DateTime)
    (db : Database F) (lat lon speed : F) (ign : Json F) (limit : F) where
  abbrev after : Session F
  after = evaluate_in cfg (fresh db) v lat lon speed ts ign limit

  evaluate_in-IsOnce : IsSound db → Started v ts db → IsOnce v ts db after
  unfolding evaluate_in
  evaluate_in-IsOnce h started = elim (Option-cases (active_trip db v)) [
    | inl e ↦ elim (Bool-cases (starts cfg speed ign)) [
      | inl s ↦ rw (e, s) (renewed refl)
      | inr s ↦ rw (e, s) (renewed refl)
    ]
    | inr (t, e) ↦
        let r = found-IsReady v ts db t h started e in
        elim (Bool-cases (leb ts t.end_time)) [
          | inl old ↦ rw (e, old) (renewed refl)
          | inr new ↦ elim (Bool-cases (ltb (secs cfg.trip_gap_timeout) (ts - t.end_time))) [
            | inl late ↦ elim (Bool-cases (starts cfg speed ign)) [
              | inl s ↦ rw (e, new, late, s) (renewed refl)
              | inr s ↦
                  rw (e, new, late, s)
                    (changed (complete t) refl (record {
                      well_formed = complete-IsWellFormed t r.well_formed;
                      vehicle = r.vehicle;
                      started = r.started;
                    }))
            ]
            | inr soon ↦
                let c = extend-end_trip-Continues cfg db v lat lon speed ts ign limit t in
                rw (e, new, soon)
                  (changed (end_trip cfg db v ts ign (extend cfg t lat lon speed ts ign limit)) refl
                    (record {
                      well_formed = end_trip-IsWellFormed cfg db v ts ign _ (
                          extend-IsWellFormed cfg t lat lon speed ts ign limit
                            (omega (arith, leb→lt _ _ new)) r.well_formed);
                      vehicle = c.vehicle ∙ r.vehicle;
                      started = omega (arith, c.start, r.started);
                    }))
          ]
        ]
  ]

  once-IsSafe :
      (s : Session F)
      → flush v s ≡ (evaluate cfg db v lat lon speed ts ign (some limit)).1
      → IsSound db
      → Started v ts db
      → IsOnce v ts db s
      → IsSafe v ts s
  once-IsSafe s e h started (renewed same) = subst (IsSafe v ts) (sym same) (
      fresh-IsSafe v ts (flush v s)
        (subst IsSound (sym e) (evaluate-IsSound cfg db v lat lon speed ts ign (some limit) h))
        (subst (Started v ts) (sym e)
          (evaluate-Started cfg v ts db lat lon speed ign (some limit) started)))
  once-IsSafe s e h started (changed m same r) =
      subst (IsSafe v ts) (sym same) (record { sound = h; ready = λ _ _. r })

  -- A coordinate leaves the stored trips sound and the active one ready.
  pub evaluate_in-IsSafe : IsSound db → Started v ts db → IsSafe v ts after
  evaluate_in-IsSafe h started =
      once-IsSafe after (flush-evaluate_in cfg db v lat lon speed ts ign limit) h started
        (evaluate_in-IsOnce h started)

  -- A coordinate writes no table but that of trips.
  pub evaluate_in-tables : record (after.stored) { trips = db.trips } ≡ db
  unfolding evaluate_in
  evaluate_in-tables = elim (Option-cases (active_trip db v)) [
    | inl e ↦ elim (Bool-cases (starts cfg speed ign)) [
      | inl s ↦ rw (e, s) (start_new_trip-Frame cfg db v lat lon speed ts limit).tables
      | inr s ↦ rw (e, s)
    ]
    | inr (t, e) ↦ elim (Bool-cases (leb ts t.end_time)) [
      | inl old ↦ rw (e, old)
      | inr new ↦ elim (Bool-cases (ltb (secs cfg.trip_gap_timeout) (ts - t.end_time))) [
        | inl late ↦ elim (Bool-cases (starts cfg speed ign)) [
          | inl s ↦
              let closed = write_active (λ _. complete t) db v in
              rw (e, new, late, s)
                (ap (λ (d : Database F). record d { trips = db.trips })
                  (start_new_trip-Frame cfg closed v lat lon speed ts limit).tables)
          | inr s ↦ rw (e, new, late, s)
        ]
        | inr soon ↦ rw (e, new, soon)
      ]
    ]
  ]
