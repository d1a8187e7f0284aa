-- ===== src/Trip/Carried.antt =====
-- One coordinate in a session that may hold changes (app/services/trip_engine.py) keeps the session
-- open, and touches nothing but the trips of its vehicle.
use welogical_vehicle_tracki.Common.{
  ℕ, ◌-◌, ◌≤◌, ◌≡◌, refl, sym, ◌∙◌, false, Bool, Option, none, some, List, [], ◌∷◌, arith, inl, inr,
  ltb, leb, leb→lt, find?, Option-cases, Bool-cases, count_if, count_if-none,
  count_if-update_first_only, update_first-found, ap,
}
use welogical_vehicle_tracki.Float.{Float, Trig}
use welogical_vehicle_tracki.Json.{Json}
use welogical_vehicle_tracki.Models.{DateTime, Trip, Database}
use welogical_vehicle_tracki.Settings.{Settings, secs}
use welogical_vehicle_tracki.Trip.Engine.{
  is_active_of, active_trip, write_active, evaluate, complete, starts, start_new_trip, extend,
  end_trip,
}
use welogical_vehicle_tracki.Trip.Invariant.{
  IsSound, start_new_trip-IsSound, extend-IsWellFormed, end_trip-IsWellFormed,
}
use welogical_vehicle_tracki.Trip.View.{trips_of, active-trips}
use welogical_vehicle_tracki.Trip.Change.{
  start_new_trip-Begins, trips-start_new_trip, extend-end_trip-Continues,
}
use welogical_vehicle_tracki.Trip.Timeline.{IsTimeline-append, IsTimeline-later}
use welogical_vehicle_tracki.Trip.Frame.{Frame, Frame-refl, Frame-trans, start_new_trip-Frame}
use welogical_vehicle_tracki.Trip.Session.{
  Session, fresh, loaded, write_held, flush, hold, begin_trip, drive_on, evaluate_in,
}
use welogical_vehicle_tracki.Trip.Open.{
  IsHeld, IsKept, IsOpen, loaded-IsHeld, hold-IsOpen, complete-IsHeld, flush-IsSound,
  flush-IsTimeline, flush-Frame,
}

module _ {A : Type 0} where
  counted_none : (p : A → Bool) (xs : List A) → count_if p xs ≡ 0 → find? p xs ≡ none
  counted_none p [] h = refl
  counted_none p (x ∷ xs) h = ground (arith, counted_none p xs)

module _ {F : Type 0} (v : ℕ) where
  complete_inactive : (t : Trip F) → is_active_of v (complete t) ≡ false
  complete_inactive t = ground arith

  -- A flush leaves no active trip where none was found.
  pub none_found :
      (now : DateTime) (db : Database F) (held : Option (Trip F))
      → IsKept v now db held
      → active_trip db v ≡ none
      → active_trip (write_held held db v) v ≡ none
  none_found now db none k free = free
  none_found now db (some m) (t, found, _) free = let clash : none ≡ some t = sym free ∙ found in cc

  -- A flush leaves no active trip where the one that was found has been closed.
  pub closed_none :
      (s : Session F) (t : Trip F)
      → IsSound s.stored
      → active_trip (flush v (hold s (complete t))) v ≡ none
  closed_none s t h = counted_none (is_active_of v) _ (
      count_if-update_first_only (is_active_of v) (λ _. complete t) s.stored.trips.rows
        (λ _. complete_inactive t) (h.one_active v))

module _ {F : Type 0} (v : ℕ) where
  module _ (now at : DateTime) (later : now ≤ at) where
    IsKept-later :
        (db : Database F) (held : Option (Trip F)) → IsKept v now db held → IsKept v at db held
    IsKept-later db none k = tt
    IsKept-later db (some m) (t, found, h) = (
      t,
      found,
      record {
        well_formed = h.well_formed;
        vehicle = h.vehicle;
        start = h.start;
        end = omega (arith, h.end, later);
      },
    )

    IsOpen-later : (s : Session F) → IsOpen v now s → IsOpen v at s
    IsOpen-later s o = record {
      sound = o.sound;
      line = IsTimeline-later v now at later (trips_of s.stored v) o.line;
      kept = IsKept-later s.stored s.held o.kept;
    }

module _ {F : Type 0} ⦃fl : Float F⦄ ⦃tr : Trig F⦄ (cfg : Settings F) (v : ℕ) (at : DateTime) where
  begin_trip-IsOpen :
      (s : Session F) (lat lon speed : F) (ign : Json F) (limit : F)
      → IsOpen v at s
      → active_trip (flush v s) v ≡ none
      → IsOpen v at (begin_trip cfg s v lat lon speed at ign limit)
  begin_trip-IsOpen s lat lon speed ign limit o free =
      let db = flush v s in
      elim (Bool-cases (starts cfg speed ign)) [
        | inl e ↦ rw e (record {
          sound =
              start_new_trip-IsSound cfg db v lat lon speed at limit (flush-IsSound v at s o)
                (count_if-none (is_active_of v) db.trips.rows free);
          line = rw (trips-start_new_trip cfg db v lat lon speed at limit) (
              IsTimeline-append v at at (omega arith) _ (trips_of db v)
                (start_new_trip-Begins cfg db v lat lon speed at limit) (active-trips db v ∙ free)
                (flush-IsTimeline v at s o));
          kept = tt;
        })
        | inr e ↦ rw e o
      ]

  begin_trip-Frame :
      (s : Session F) (lat lon speed : F) (ign : Json F) (limit : F)
      → IsOpen v at s
      → Frame v s.stored (begin_trip cfg s v lat lon speed at ign limit).stored
  begin_trip-Frame s lat lon speed ign limit o = elim (Bool-cases (starts cfg speed ign)) [
    | inl e ↦ rw e (
        Frame-trans v s.stored (flush v s) _ (flush-Frame v at s o)
          (start_new_trip-Frame cfg (flush v s) v lat lon speed at limit))
    | inr e ↦ rw e (Frame-refl v s.stored)
  ]

  extended-IsHeld :
      (db : Database F) (lat lon speed : F) (ign : Json F) (limit : F) (now : DateTime)
      (t m : Trip F)
      → m.end_time ≤ at
      → IsHeld v now t m
      → IsHeld v at t (end_trip cfg db v at ign (extend cfg m lat lon speed at ign limit))
  extended-IsHeld db lat lon speed ign limit now t m later h =
      let c = extend-end_trip-Continues cfg db v lat lon speed at ign limit m in
      record {
        well_formed =
            end_trip-IsWellFormed cfg db v at ign _
              (extend-IsWellFormed cfg m lat lon speed at ign limit later h.well_formed);
        vehicle = c.vehicle ∙ h.vehicle;
        start = c.start ∙ h.start;
        end = omega (arith, c.end);
      }

  module _ (now : DateTime) (later : now ≤ at) (s : Session F) (lat lon speed : F) (ign : Json F)
      (limit : F) (o : IsOpen v now s) where
    -- What a coordinate keeps.
    abbrev Carries : Session F → Type 0
    Carries s' = IsOpen v at s' × Frame v s.stored s'.stored

    drive_on-Carries :
        (t m : Trip F)
        → active_trip s.stored v ≡ some t
        → IsHeld v now t m
        → Carries (drive_on cfg s v lat lon speed at ign limit m)
    drive_on-Carries t m found h = elim (Bool-cases (leb at m.end_time)) [
      | inl e ↦ rw e (IsOpen-later v now at later s o, Frame-refl v s.stored)
      | inr fresh ↦ elim (Bool-cases (ltb (secs cfg.trip_gap_timeout) (at - m.end_time))) [
        | inl e ↦
            let closed = hold s (complete m) in
            let k : IsHeld v at t m = record {
              well_formed = h.well_formed;
              vehicle = h.vehicle;
              start = h.start;
              end = omega (arith, h.end, later);
            } in
            let kept : IsOpen v at closed =
              hold-IsOpen v now at s t (complete m) later o found (complete-IsHeld v at t m k) in
            rw (fresh, e)
              (
                begin_trip-IsOpen closed lat lon speed ign limit kept (closed_none v s m o.sound),
                begin_trip-Frame closed lat lon speed ign limit kept,
              )
        | inr e ↦
            rw (fresh, e)
              (
                hold-IsOpen v now at s t _ later o found (
                    extended-IsHeld s.stored lat lon speed ign limit now t m
                      (omega (arith, leb→lt _ _ fresh)) h),
                Frame-refl v s.stored,
              )
      ]
    ]

    -- A coordinate no older than the last one keeps the session open, and everything else as it was.
    pub evaluate_in-Carries : Carries (evaluate_in cfg s v lat lon speed at ign limit)
    unfolding evaluate_in
    evaluate_in-Carries = elim (Option-cases (active_trip s.stored v)) [
      | inl e ↦
          let kept = IsOpen-later v now at later s o in
          rw e (
            begin_trip-IsOpen s lat lon speed ign limit kept
                (none_found v now s.stored s.held o.kept e),
            begin_trip-Frame s lat lon speed ign limit kept,
          )
      | inr (t, e) ↦ rw e (drive_on-Carries t (loaded s t) e (loaded-IsHeld v now s t o e))
    ]

module _ {F : Type 0} ⦃fl : Float F⦄ ⦃tr : Trig F⦄ (cfg : Settings F) where
  pub flush-evaluate_in :
      (db : Database F) (v : ℕ) (lat lon speed : F) (ts : DateTime) (ign : Json F) (limit : F)
      → flush v (evaluate_in cfg (fresh db) v lat lon speed ts ign limit)
        ≡ (evaluate cfg db v lat lon speed ts ign (some limit)).1
  unfolding evaluate_in evaluate
  flush-evaluate_in db v lat lon speed ts ign limit = elim (Option-cases (active_trip db v)) [
    | inl e ↦ elim (Bool-cases (starts cfg speed ign)) [ inl s ↦ rw (e, s) | inr s ↦ rw (e, s) ]
    | inr (t, e) ↦ elim (Bool-cases (leb ts t.end_time)) [
      | inl old ↦ rw (e, old)
      | inr new ↦ elim (Bool-cases (ltb (secs cfg.trip_gap_timeout) (ts - t.end_time))) [
        | inl late ↦
            let same : write_active (λ _. complete t) db v ≡ write_active complete db v =
              ap (λ l. record db { trips = record (db.trips) { rows = l } })
                (update_first-found (is_active_of v) complete db.trips.rows t e) in
            elim (Bool-cases (starts cfg speed ign)) [
              | inl s ↦
                  rw (e, new, late, s)
                    (ap (λ d. (start_new_trip cfg d v lat lon speed ts limit).1) same)
              | inr s ↦ rw (e, new, late, s) same
            ]
        | inr soon ↦ rw (e, new, soon)
      ]
    ]
  ]
