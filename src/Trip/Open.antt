-- ===== src/Trip/Open.antt =====
-- What holds of a session between two coordinates of a vehicle in order of time: the trips as stored,
-- and the trip that the session has changed (app/services/trip_engine.py).
use mathlib.Core.Option.{some-injective}
use welogical_vehicle_tracki.Common.{
  ℕ, ◌≤◌, ◌≡◌, refl, sym, ◌∙◌, true, Option, none, some, List, [], ◌∷◌, arith, find?, find?-sound,
  find?-All, subst,
}
use welogical_vehicle_tracki.Models.{DateTime, Trip, Database}
use welogical_vehicle_tracki.Trip.Engine.{is_active_of, active_trip, complete}
use welogical_vehicle_tracki.Trip.Invariant.{
  IsWellFormed, IsSound, overwrite-IsSound, complete-IsWellFormed,
}
use welogical_vehicle_tracki.Trip.View.{trips_of, trips-write_active, active-trips}
use welogical_vehicle_tracki.Trip.Timeline.{IsTimeline, IsTimeline-update, IsTimeline-later}
use welogical_vehicle_tracki.Trip.Frame.{Frame, Frame-refl, write_active-Frame}
use welogical_vehicle_tracki.Trip.Session.{Session, loaded, write_held, flush, hold}

module _ {F : Type 0} (v : ℕ) where
  -- `m` is the stored trip `t` as the session knows it at `now`.
  pub record IsHeld (now : DateTime) (t m : Trip F) : Type 0 where
    pub well_formed : IsWellFormed m
    pub vehicle : m.vehicle_id ≡ v
    pub start : m.start_time ≡ t.start_time
    pub end : m.end_time ≤ now

  -- A changed trip is one that a query still finds as active.
  abbrev pub IsKept : DateTime → Database F → Option (Trip F) → Type 0
  IsKept now db none = Unit
  IsKept now db (some m) = (t : Trip F) × (active_trip db v ≡ some t) × IsHeld now t m

  pub record IsOpen (now : DateTime) (s : Session F) : Type 0 where
    pub sound : IsSound s.stored
    pub line : IsTimeline v now (trips_of s.stored v)
    pub kept : IsKept now s.stored s.held

  found_end :
      (now : DateTime) (ts : List (Trip F)) (t : Trip F)
      → find? (is_active_of v) ts ≡ some t
      → IsTimeline v now ts
      → t.end_time ≤ now
  found_end now [] t e h = cc
  found_end now (x ∷ []) t e h = ground arith
  found_end now (x ∷ y ∷ ts) t e h = ground (arith, found_end now (y ∷ ts) t)

  IsHeld-stored :
      (now : DateTime) (db : Database F) (t : Trip F)
      → IsSound db
      → IsTimeline v now (trips_of db v)
      → active_trip db v ≡ some t
      → IsHeld now t t
  IsHeld-stored now db t h line found =
      let mine : is_active_of v t ≡ true = find?-sound (is_active_of v) db.trips.rows t found in
      record {
        well_formed = find?-All IsWellFormed (is_active_of v) db.trips.rows t h.well_formed found;
        vehicle = ground (arith, mine);
        start = refl;
        end = found_end now (trips_of db v) t (active-trips db v ∙ found) line;
      }

  loaded_kept :
      (now : DateTime) (db : Database F) (held : Option (Trip F)) (t : Trip F)
      → IsOpen now (record { stored = db; held = held })
      → active_trip db v ≡ some t
      → IsHeld now t (loaded (record { stored = db; held = held }) t)
  loaded_kept now db none t o found = IsHeld-stored now db t o.sound o.line found
  loaded_kept now db (some m) t o found =
      let (u, e, h) = o.kept in subst (λ x. IsHeld now x m) (some-injective u t (sym e ∙ found)) h

  -- The trip that a query finds, as the session knows it.
  pub loaded-IsHeld :
      (now : DateTime) (s : Session F) (t : Trip F)
      → IsOpen now s
      → active_trip s.stored v ≡ some t
      → IsHeld now t (loaded s t)
  loaded-IsHeld now s t o found = loaded_kept now s.stored s.held t o found

  pub hold-IsOpen :
      (now at : DateTime) (s : Session F) (t m : Trip F)
      → now ≤ at
      → IsOpen now s
      → active_trip s.stored v ≡ some t
      → IsHeld at t m
      → IsOpen at (hold s m)
  hold-IsOpen now at s t m later o found h = record {
    sound = o.sound;
    line = IsTimeline-later v now at later (trips_of s.stored v) o.line;
    kept = (t, found, h);
  }

  pub complete-IsHeld : (now : DateTime) (t m : Trip F) → IsHeld now t m → IsHeld now t (complete m)
  complete-IsHeld now t m h = record {
    well_formed = complete-IsWellFormed m h.well_formed;
    vehicle = h.vehicle;
    start = h.start;
    end = h.end;
  }

  write_held-IsSound :
      (now : DateTime) (db : Database F) (held : Option (Trip F))
      → IsSound db
      → IsKept now db held
      → IsSound (write_held held db v)
  write_held-IsSound now db none h k = h
  write_held-IsSound now db (some m) h (t, _, k) =
      overwrite-IsSound db v m h k.well_formed k.vehicle

  write_held-IsTimeline :
      (now : DateTime) (db : Database F) (held : Option (Trip F))
      → IsTimeline v now (trips_of db v)
      → IsKept now db held
      → IsTimeline v now (trips_of (write_held held db v) v)
  write_held-IsTimeline now db none line k = line
  write_held-IsTimeline now db (some m) line (t, found, k) =
      rw (trips-write_active v (λ _. m) (λ _ _. k.vehicle) db) (
        IsTimeline-update v now now (omega arith) (λ _. m) t k.vehicle k.start
          (λ _ _. omega (arith, k.well_formed.forward, k.start, k.end)) (trips_of db v)
          (active-trips db v ∙ found) line)

  write_held-Frame :
      (now : DateTime) (db : Database F) (held : Option (Trip F))
      → IsKept now db held
      → Frame v db (write_held held db v)
  write_held-Frame now db none k = Frame-refl v db
  write_held-Frame now db (some m) (t, _, k) = write_active-Frame v (λ _. m) db (λ _ _. k.vehicle)

  -- A flush stores a timeline of sound trips, and touches nothing else.
  pub flush-IsSound : (now : DateTime) (s : Session F) → IsOpen now s → IsSound (flush v s)
  flush-IsSound now s o = write_held-IsSound now s.stored s.held o.sound o.kept

  pub flush-IsTimeline :
      (now : DateTime) (s : Session F) → IsOpen now s → IsTimeline v now (trips_of (flush v s) v)
  flush-IsTimeline now s o = write_held-IsTimeline now s.stored s.held o.line o.kept

  pub flush-Frame : (now : DateTime) (s : Session F) → IsOpen now s → Frame v s.stored (flush v s)
  flush-Frame now s o = write_held-Frame now s.stored s.held o.kept
