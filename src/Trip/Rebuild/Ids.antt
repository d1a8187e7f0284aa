-- ===== src/Trip/Rebuild/Ids.antt =====
-- The ids of the trips have no influence on what `evaluate_coordinate_for_trip` does
-- (app/services/trip_engine.py): with the ids blotted out the result is the same.
use welogical_vehicle_tracki.Common.{
  ℕ, ◌≡◌, refl, sym, ap, Option, none, some, List, [], ◌∷◌, ◌++◌, map, arith, find?, update_first,
}
use welogical_vehicle_tracki.Float.{Float, Trig}
use welogical_vehicle_tracki.Json.{Json}
use welogical_vehicle_tracki.Models.{DateTime, Trip, Database}
use welogical_vehicle_tracki.Settings.{Settings}
use welogical_vehicle_tracki.Trip.Engine.{
  is_active_of, start_new_trip, extend, end_trip, get_vehicle_speed_limit,
}

module _ {F : Type 0} where
  -- A trip, and a database, with the ids of the trips blotted out.
  abbrev pub forget : Trip F → Trip F
  forget t = record t { id = 0 }

  abbrev pub forget_ids : Database F → Database F
  forget_ids db = record db { trips = record { rows = map forget db.trips.rows; next_id = 0 } }

  map-forget-forget : (ts : List (Trip F)) → map forget (map forget ts) ≡ map forget ts
  map-forget-forget [] = refl
  map-forget-forget (t ∷ ts) = ap (λ l. forget t ∷ l) (map-forget-forget ts)

  abbrev pub map_option : Option (Trip F) → Option (Trip F)
  map_option none = none
  map_option (some t) = some (forget t)

  pub find?-forget :
      (v : ℕ) (ts : List (Trip F))
      → find? (is_active_of v) (map forget ts) ≡ map_option (find? (is_active_of v) ts)
  find?-forget v [] = refl
  find?-forget v (t ∷ ts) = ground (arith, find?-forget v ts)

  -- A write that commutes with forgetting.
  pub update_first-forget :
      (v : ℕ) (f g : Trip F → Trip F)
      → ((t : Trip F) → forget (f t) ≡ forget (g (forget t)))
      → (ts : List (Trip F))
      → map forget (update_first (is_active_of v) f ts)
        ≡ map forget (update_first (is_active_of v) g (map forget ts))
  update_first-forget v f g h [] = refl
  update_first-forget v f g h (t ∷ ts) =
      ground (arith, h t, map-forget-forget ts, update_first-forget v f g h ts)

  append-forget :
      (x y : Trip F) (ts : List (Trip F))
      → forget x ≡ forget y
      → map forget (ts ++ (x ∷ [])) ≡ map forget (map forget ts ++ (y ∷ []))
  append-forget x y [] e = ground (arith, e)
  append-forget x y (t ∷ ts) e = ap (λ l. forget t ∷ l) (append-forget x y ts e)

  pub rows-forget :
      (db : Database F) {l m : List (Trip F)}
      → l ≡ m
      → ◌≡◌ {A = Database F}
          (record db { trips = record { rows = l; next_id = 0 } })
          (record db { trips = record { rows = m; next_id = 0 } })
  rows-forget db e = ap (λ l. record db { trips = record { rows = l; next_id = 0 } }) e

  pub forget_ids_twice : (db : Database F) → forget_ids db ≡ forget_ids (forget_ids db)
  forget_ids_twice db = rows-forget db (sym (map-forget-forget db.trips.rows))

module _ {F : Type 0} ⦃fl : Float F⦄ (cfg : Settings F) where
  pub speed_limit-forget :
      (db : Database F) (v : ℕ)
      → get_vehicle_speed_limit cfg (forget_ids db) v ≡ get_vehicle_speed_limit cfg db v
  unfolding get_vehicle_speed_limit
  speed_limit-forget db v = refl

  pub start_new_trip-forget :
      (db : Database F) (v : ℕ) (lat lon speed : F) (ts : DateTime) (limit : F)
      → forget_ids (start_new_trip cfg db v lat lon speed ts limit).1
        ≡ forget_ids (start_new_trip cfg (forget_ids db) v lat lon speed ts limit).1
  unfolding start_new_trip
  start_new_trip-forget db v lat lon speed ts limit =
      rows-forget db (append-forget _ _ db.trips.rows refl)

  module _ ⦃tr : Trig F⦄ where
    pub end_trip-forget :
        (db : Database F) (v : ℕ) (lat lon speed : F) (ts : DateTime) (ign : Json F) (limit : F)
        (t : Trip F)
        → forget (end_trip cfg db v ts ign (extend cfg t lat lon speed ts ign limit))
          ≡ forget (
              end_trip cfg
                (forget_ids db)
                v
                ts
                ign
                (extend cfg (forget t) lat lon speed ts ign limit))
    unfolding end_trip extend
    end_trip-forget db v lat lon speed ts ign limit t = ground arith
