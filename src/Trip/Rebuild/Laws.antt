-- ===== src/Trip/Rebuild/Laws.antt =====
-- What `rebuild_vehicle_trips` (app/services/trip_engine.py) leaves behind, and when it returns.
use welogical_vehicle_tracki.Common.{
  ℕ, ◌≡◌, refl, ap, subst, ◌∙◌, none, [], arith, length, inl, inr, Option-cases, All-select,
  sort_by-SortedFrom, count_if-select-le, select-complement, select-select_self, ok, >>=-eq-ok,
  ok-injective,
}
use welogical_vehicle_tracki.Float.{Float, Trig}
use welogical_vehicle_tracki.Models.{DateTime, Database}
use welogical_vehicle_tracki.Settings.{Settings}
use welogical_vehicle_tracki.Trip.Engine.{is_active_of, active_trip, get_vehicle_speed_limit}
use welogical_vehicle_tracki.Trip.Invariant.{IsSound, IsWellFormed}
use welogical_vehicle_tracki.Trip.View.{is_of, is_other, trips_of, others_of}
use welogical_vehicle_tracki.Trip.Timeline.{IsTimeline}
use welogical_vehicle_tracki.Trip.Frame.{Frame, Frame-refl, Frame-trans}
use welogical_vehicle_tracki.Trip.Session.{Session, fresh, loaded, flush}
use welogical_vehicle_tracki.Trip.Open.{
  IsOpen, loaded-IsHeld, hold-IsOpen, complete-IsHeld, flush-IsSound, flush-IsTimeline, flush-Frame,
}
use welogical_vehicle_tracki.Trip.Carried.{none_found, closed_none}
use welogical_vehicle_tracki.Trip.Rebuild.{
  replay, rebuild_vehicle_trips, delete_trips, history, close_lingering,
}
use welogical_vehicle_tracki.Trip.Rebuild.Replay.{IsReplayed, replay-IsReplayed}

module _ {F : Type 0} where
  -- The trips of `v` in `db'` are rebuilt: sound, none left active, in order of time with no two
  -- that overlap, `n` in number, with the trips of the other vehicles and the other tables of `db`.
  pub record IsRebuilt (v : ℕ) (db : Database F) (n : ℕ) (db' : Database F) : Type 0 where
    pub sound : IsSound db'
    pub closed : active_trip db' v ≡ none
    pub until : DateTime
    pub timeline : IsTimeline v until (trips_of db' v)
    pub counted : n ≡ length (trips_of db' v)
    pub others : others_of db' v ≡ others_of db v
    pub tables : record db' { trips = db.trips } ≡ db

  delete_trips-IsSound : (db : Database F) (v : ℕ) → IsSound db → IsSound (delete_trips db v)
  delete_trips-IsSound db v h = record {
    well_formed = All-select IsWellFormed (is_other v) db.trips.rows h.well_formed;
    one_active = λ w.
        omega
          (arith, h.one_active w, count_if-select-le (is_active_of w) (is_other v) db.trips.rows);
  }

  -- A deleted vehicle has no trips.
  trips-delete_trips : (db : Database F) (v : ℕ) → trips_of (delete_trips db v) v ≡ []
  trips-delete_trips db v =
      select-complement (is_of v) (is_other v) db.trips.rows (λ t h. ground arith)

  others-delete_trips : (db : Database F) (v : ℕ) → others_of (delete_trips db v) v ≡ others_of db v
  others-delete_trips db v = select-select_self (is_other v) db.trips.rows

  -- What closing the lingering trip leaves: a session as open as before, and no active trip.
  record IsClosed (v : ℕ) (now : DateTime) (s s' : Session F) : Type 0 where
    kept : IsOpen v now s'
    frame : Frame v s.stored s'.stored
    closed : active_trip (flush v s') v ≡ none

  close_lingering-IsClosed :
      (v : ℕ) (now : DateTime) (s : Session F)
      → IsOpen v now s
      → IsClosed v now s (close_lingering s v)
  close_lingering-IsClosed v now s o = elim (Option-cases (active_trip s.stored v)) [
    | inl e ↦ rw e (record {
      kept = o;
      frame = Frame-refl v s.stored;
      closed = none_found v now s.stored s.held o.kept e;
    })
    | inr (t, e) ↦ rw e (record {
      kept =
          hold-IsOpen v now now s t _ (omega arith) o e
            (complete-IsHeld v now t (loaded s t) (loaded-IsHeld v now s t o e));
      frame = Frame-refl v s.stored;
      closed = closed_none v s (loaded s t) o.sound;
    })
  ]

  close_lingering-IsRebuilt :
      (v : ℕ) (db : Database F) (mid : Session F)
      → IsReplayed v (fresh (delete_trips db v)) mid
      → let done = flush v (close_lingering mid v) in IsRebuilt v db (length (trips_of done v)) done
  close_lingering-IsRebuilt v db mid r =
      let s = close_lingering mid v in
      let c = close_lingering-IsClosed v r.until mid r.kept in
      let frame : Frame v (delete_trips db v) (flush v s) =
        Frame-trans v (delete_trips db v) mid.stored (flush v s) r.frame (
          Frame-trans v mid.stored s.stored (flush v s) c.frame (flush-Frame v r.until s c.kept)) in
      record {
        sound = flush-IsSound v r.until s c.kept;
        closed = c.closed;
        until = r.until;
        timeline = flush-IsTimeline v r.until s c.kept;
        counted = refl;
        others = frame.others ∙ others-delete_trips db v;
        tables = ap (λ (d : Database F). record d { trips = db.trips }) frame.tables;
      }

module _ {F : Type 0} ⦃fl : Float F⦄ ⦃tr : Trig F⦄ (cfg : Settings F) where
  pub rebuild-IsRebuilt :
      (db : Database F) (v : ℕ) (n : ℕ) (db' : Database F)
      → IsSound db
      → rebuild_vehicle_trips cfg db v ≡ ok (n, db')
      → IsRebuilt v db n db'
  unfolding rebuild_vehicle_trips
  rebuild-IsRebuilt db v n db' h e =
      let cleared = delete_trips db v in
      let (mid, ran, done) =
        >>=-eq-ok
          (replay cfg v (get_vehicle_speed_limit cfg cleared v) (history cleared v) (fresh cleared))
          _ (n, db') e in
      let r =
        replay-IsReplayed cfg v (get_vehicle_speed_limit cfg cleared v) (history cleared v) 0
          (fresh cleared) mid (sort_by-SortedFrom _ _)
          (record {
            sound = delete_trips-IsSound db v h;
            line = rw (trips-delete_trips db v) tt;
            kept = tt;
          })
          ran in
      let same : (
        length (trips_of (flush v (close_lingering mid v)) v),
        flush v (close_lingering mid v),
      )
          ≡ (n, db') =
        ok-injective _ _ done in
      subst (λ (p : ℕ × Database F). IsRebuilt v db p.0 p.1) same
        (close_lingering-IsRebuilt v db mid r)
