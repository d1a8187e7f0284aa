-- ===== src/Trip/Rebuild/Idempotence.antt =====
-- `rebuild_vehicle_trips` is idempotent up to the ids of the trips, as its docstring says
-- (app/services/trip_engine.py).
use welogical_vehicle_tracki.Common.{
  ℕ, ◌≡◌, refl, sym, ap, ◌∙◌, none, List, [], ◌∷◌, map, arith, ◌==◌, length, select, inl, inr,
  Result, ok, err, ◌>>=◌, Result-cases, Option-cases,
}
use welogical_vehicle_tracki.Float.{Float, Trig}
use welogical_vehicle_tracki.Models.{Trip, Location, Database}
use welogical_vehicle_tracki.Settings.{Settings}
use welogical_vehicle_tracki.Trip.Engine.{active_trip, complete, get_vehicle_speed_limit}
use welogical_vehicle_tracki.Trip.Invariant.{IsSound}
use welogical_vehicle_tracki.Trip.View.{is_of, others_of}
use welogical_vehicle_tracki.Trip.Session.{Session, fresh, loaded, flush}
use welogical_vehicle_tracki.Trip.Rebuild.{
  replay, rebuild_vehicle_trips, delete_trips, history, close_lingering, location_ignition,
}
use welogical_vehicle_tracki.Trip.Rebuild.Laws.{rebuild-IsRebuilt}
use welogical_vehicle_tracki.Trip.Rebuild.Ids.{
  forget, forget_ids, find?-forget, rows-forget, speed_limit-forget,
}
use welogical_vehicle_tracki.Trip.Rebuild.Blotted.{
  blot, blot_twice, flush-blot, loaded-blot, hold-blot, evaluate_in-respects,
}

module _ {F : Type 0} where
  -- What a replay returns, with the ids blotted out of the session that it leaves.
  abbrev forget_replayed : Result (Session F) → Result (Session F)
  forget_replayed (ok s) = ok (blot s)
  forget_replayed (err e) = err e

  -- What a rebuild returns, with the ids blotted out of the database that it leaves.
  abbrev pub forget_rebuilt : Result (ℕ × Database F) → Result (ℕ × Database F)
  forget_rebuilt (ok (n, db)) = ok (n, forget_ids db)
  forget_rebuilt (err e) = err e

  -- The end of a rebuild: close the lingering trip and count.
  abbrev finish : ℕ → Session F → Result (ℕ × Database F)
  finish v mid =
      let done = flush v (close_lingering mid v) in
      ok (length (select (λ (t : Trip F). t.vehicle_id == v) done.trips.rows), done)

  length-forget :
      (v : ℕ) (ts : List (Trip F))
      → length (select (is_of v) (map forget ts)) ≡ length (select (is_of v) ts)
  length-forget v [] = refl
  length-forget v (t ∷ ts) = ground (arith, length-forget v ts)

  close_lingering-blot :
      (v : ℕ) (s : Session F) → blot (close_lingering s v) ≡ blot (close_lingering (blot s) v)
  close_lingering-blot v s =
      rw (find?-forget v s.stored.trips.rows) (elim (Option-cases (active_trip s.stored v)) [
        | inl e ↦ rw e (blot_twice s)
        | inr (t, e) ↦ rw e (
            hold-blot s (complete (loaded s t)) (complete (loaded (blot s) (forget t)))
              (ap (λ u. forget (complete u)) (sym (loaded-blot s t))))
      ])

  closed-blot :
      (v : ℕ) (s : Session F)
      → forget_ids (flush v (close_lingering s v))
        ≡ forget_ids (flush v (close_lingering (blot s) v))
  closed-blot v s =
      flush-blot v (close_lingering s v)
      ∙ ap (λ c. forget_ids (flush v c)) (close_lingering-blot v s)
      ∙ sym (flush-blot v (close_lingering (blot s) v))

  finish-forget :
      (v : ℕ) (s : Session F) → forget_rebuilt (finish v s) ≡ forget_rebuilt (finish v (blot s))
  finish-forget v s =
      let e = closed-blot v s in
      let n =
        sym (length-forget v (flush v (close_lingering s v)).trips.rows)
        ∙ ap (λ (d : Database F). length (select (is_of v) d.trips.rows)) e
        ∙ length-forget v (flush v (close_lingering (blot s) v)).trips.rows in
      λ i. ok (n i, e i)

  bind-finish :
      (v : ℕ) (m : Result (Session F))
      → forget_rebuilt (m >>= finish v) ≡ forget_rebuilt (forget_replayed m >>= finish v)
  bind-finish v (ok s) = finish-forget v s
  bind-finish v (err e) = refl

  delete_trips-forget :
      (db db' : Database F) (v : ℕ)
      → others_of db' v ≡ others_of db v
      → record db' { trips = db.trips } ≡ db
      → forget_ids (delete_trips db' v) ≡ forget_ids (delete_trips db v)
  delete_trips-forget db db' v others tables =
      rows-forget db' (ap (map forget) others)
      ∙ ap
          (λ (d : Database F). record d {
            trips = record { rows = map forget (others_of db v); next_id = 0 };
          })
          tables

module _ {F : Type 0} ⦃fl : Float F⦄ ⦃tr : Trig F⦄ (cfg : Settings F) where
  replay-respects :
      (v : ℕ) (limit : F) (locs : List (Location F)) (a b : Session F)
      → blot a ≡ blot b
      → forget_replayed (replay cfg v limit locs a) ≡ forget_replayed (replay cfg v limit locs b)
  unfolding replay
  replay-respects v limit [] a b e = ap ok e
  replay-respects v limit (loc ∷ locs) a b e =
      elim (Result-cases (location_ignition loc.extra_data)) [
        | inl (ign, i) ↦ rw i (
            replay-respects v limit locs _ _ (
              evaluate_in-respects cfg v loc.latitude loc.longitude loc.speed loc.timestamp ign
                limit a b e))
        | inr (x, i) ↦ rw i
      ]

  -- The rest of a rebuild, once the old trips are deleted.
  abbrev rebuild_from : ℕ → Database F → Result (ℕ × Database F)
  rebuild_from v c =
      replay cfg v (get_vehicle_speed_limit cfg c v) (history c v) (fresh c) >>= finish v

  rebuild_from-respects :
      (v : ℕ) (a b : Database F)
      → forget_ids a ≡ forget_ids b
      → forget_rebuilt (rebuild_from v a) ≡ forget_rebuilt (rebuild_from v b)
  rebuild_from-respects v a b e =
      let limit : get_vehicle_speed_limit cfg a v ≡ get_vehicle_speed_limit cfg b v =
        sym (speed_limit-forget cfg a v)
        ∙ ap (λ d. get_vehicle_speed_limit cfg d v) e
        ∙ speed_limit-forget cfg b v in
      let locs : history a v ≡ history b v = ap (λ d. history d v) e in
      bind-finish v (replay cfg v (get_vehicle_speed_limit cfg a v) (history a v) (fresh a))
      ∙ rw (limit, locs)
          (ap (λ r. forget_rebuilt (r >>= finish v))
            (replay-respects v (get_vehicle_speed_limit cfg b v) (history b v) (fresh a) (fresh b)
              (λ i. record { stored = e i; held = none })))
      ∙ sym (bind-finish v (replay cfg v (get_vehicle_speed_limit cfg b v) (history b v) (fresh b)))

  -- When the trips are sound and a rebuild returns, rebuilding again returns the same count and, but
  -- for the ids of the trips, the same database.
  pub rebuild_idempotent :
      (db : Database F) (v : ℕ) (n : ℕ) (db' : Database F)
      → IsSound db
      → rebuild_vehicle_trips cfg db v ≡ ok (n, db')
      → forget_rebuilt (rebuild_vehicle_trips cfg db' v) ≡ ok (n, forget_ids db')
  unfolding rebuild_vehicle_trips
  rebuild_idempotent db v n db' h e =
      let r = rebuild-IsRebuilt cfg db v n db' h e in
      rebuild_from-respects v (delete_trips db' v) (delete_trips db v)
        (delete_trips-forget db db' v r.others r.tables)
      ∙ ap forget_rebuilt e
