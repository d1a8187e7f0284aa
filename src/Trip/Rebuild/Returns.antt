-- ===== src/Trip/Rebuild/Returns.antt =====
-- When `rebuild_vehicle_trips` (app/services/trip_engine.py) returns: whenever the "io" entry of
-- each location of the vehicle, where there is one, is a dictionary.
use welogical_vehicle_tracki.Common.{
  ℕ, ◌≡◌, refl, Bool-cases, Option-cases, inl, inr, false, ◌&&◌, some, List, [], ◌∷◌, arith, ◌==◌,
  All, length, select, sort_by-All, ok,
}
use welogical_vehicle_tracki.Float.{Float, Trig}
use welogical_vehicle_tracki.Json.{Json, Dict, obj, null, get_or, contains, is_filled}
use welogical_vehicle_tracki.Models.{Trip, Location, Database}
use welogical_vehicle_tracki.Settings.{Settings}
use welogical_vehicle_tracki.Trip.Engine.{get_vehicle_speed_limit}
use welogical_vehicle_tracki.Trip.Session.{Session, fresh, flush}
use welogical_vehicle_tracki.Trip.Rebuild.{
  replay, rebuild_vehicle_trips, delete_trips, history, location_ignition, dict_ignition,
  close_lingering,
}

module _ {F : Type 0} where
  -- The "io" entry of the extra data is missing or a dictionary.
  pub data HasIo (d : Dict F) : Type 0 where
    missing : contains "io" d ≡ false → HasIo d
    present : (io : Dict F) → get_or "io" null d ≡ obj io → HasIo d

  abbrev pub HasIgnition : Location F → Type 0
  HasIgnition l = (d : Dict F) → l.extra_data ≡ some d → HasIo d

  dict_ignition-returns : (d : Dict F) → HasIo d → (j : Json F) × (dict_ignition d ≡ ok j)
  dict_ignition-returns d (missing e) = (null, ground arith)
  dict_ignition-returns d (present io e) = elim (Bool-cases (is_filled d && contains "io" d)) [
    | inl f ↦ (get_or "ign" null io, rw (f, e))
    | inr f ↦ (null, rw f)
  ]

  location_ignition-returns :
      (l : Location F) → HasIgnition l → (j : Json F) × (location_ignition l.extra_data ≡ ok j)
  location_ignition-returns l h = elim (Option-cases l.extra_data) [
    | inl e ↦ (null, rw e)
    | inr (d, e) ↦ rw e (dict_ignition-returns d (h d e))
  ]

module _ {F : Type 0} ⦃fl : Float F⦄ ⦃tr : Trig F⦄ (cfg : Settings F) where
  replay-returns :
      (v : ℕ) (limit : F) (locs : List (Location F)) (s : Session F)
      → All HasIgnition locs
      → (s' : Session F) × (replay cfg v limit locs s ≡ ok s')
  unfolding replay
  replay-returns v limit [] s h = (s, refl)
  replay-returns v limit (loc ∷ locs) s h =
      let (ign, e) = location_ignition-returns loc h.0 in rw e (replay-returns v limit locs _ h.1)

  -- When the "io" entry of each location of the vehicle is missing or a dictionary, a rebuild of the
  -- vehicle returns.
  pub rebuild-returns :
      (db : Database F) (v : ℕ)
      → All HasIgnition (select (λ (l : Location F). l.vehicle_id == v) db.locations.rows)
      → (n : ℕ) × (db' : Database F) × (rebuild_vehicle_trips cfg db v ≡ ok (n, db'))
  unfolding rebuild_vehicle_trips
  rebuild-returns db v h =
      let cleared = delete_trips db v in
      let (mid, e) =
        replay-returns v (get_vehicle_speed_limit cfg cleared v) (history cleared v) (fresh cleared)
          (sort_by-All _ HasIgnition _ h) in
      let done = flush v (close_lingering mid v) in
      (length (select (λ (t : Trip F). t.vehicle_id == v) done.trips.rows), done, rw e)
