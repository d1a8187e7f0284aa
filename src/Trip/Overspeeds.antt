-- ===== src/Trip/Overspeeds.antt =====
-- The overspeeds of a trip summary (app/services/trip_analytics.py) and their groups.
use mathlib.Core.List.{append-nil, append_assoc}
use welogical_vehicle_tracki.Common.{
  ℕ, suc, ◌+◌, ◌≤◌, ◌≡◌, refl, sym, ◌∙◌, inl, inr, Bool, true, false, List, [], ◌∷◌, ◌++◌, map,
  foldl, arith, if◌then◌else◌, select, length, Bool-cases,
}
use welogical_vehicle_tracki.Float.{Float, lt}
use welogical_vehicle_tracki.Models.{Location}
use welogical_vehicle_tracki.Trip.Summary.{
  Overspeeding, overspeed_of, overspeed_step, overspeeds_of,
}

module _ {F : Type 0} ⦃fl : Float F⦄ (limit : F) where
  abbrev pub is_fast : Location F → Bool
  is_fast l = lt limit l.speed

  -- How many runs of fast locations begin, after a location that is fast or not.
  abbrev pub runs : Bool → List (Location F) → ℕ
  runs before [] = 0
  runs before (l ∷ locs) =
      let fast = runs true locs in
      let slow = runs false locs in if is_fast l then (if before then fast else suc fast) else slow

  runs-le :
      (before : Bool) (locs : List (Location F)) → runs before locs ≤ length (select is_fast locs)
  runs-le before [] = omega arith
  runs-le before (l ∷ locs) = ground (arith, runs-le true locs, runs-le false locs)

  step_overspeeds :
      (l : Location F) (locs : List (Location F)) (s : Overspeeding F)
      → (overspeed_step limit s l).overspeeds ++ map overspeed_of (select is_fast locs)
        ≡ s.overspeeds ++ map overspeed_of (select is_fast (l ∷ locs))
  unfolding overspeed_step
  step_overspeeds l locs s = elim (Bool-cases (fl.le l.speed limit)) [
    | inl e ↦ rw e refl
    | inr e ↦ rw e (append_assoc s.overspeeds _ _)
  ]

  fold_overspeeds :
      (locs : List (Location F)) (s : Overspeeding F)
      → (foldl (overspeed_step limit) s locs).overspeeds
        ≡ s.overspeeds ++ map overspeed_of (select is_fast locs)
  fold_overspeeds [] s = sym (append-nil s.overspeeds)
  fold_overspeeds (l ∷ locs) s =
      fold_overspeeds locs (overspeed_step limit s l) ∙ step_overspeeds l locs s

  step_groups :
      (l : Location F) (locs : List (Location F)) (s : Overspeeding F)
      → (overspeed_step limit s l).groups_count + runs (overspeed_step limit s l).in_group locs
        ≡ s.groups_count + runs s.in_group (l ∷ locs)
  unfolding overspeed_step
  step_groups l locs s = ground arith

  fold_groups :
      (locs : List (Location F)) (s : Overspeeding F)
      → (foldl (overspeed_step limit) s locs).groups_count ≡ s.groups_count + runs s.in_group locs
  fold_groups [] s = omega arith
  fold_groups (l ∷ locs) s = fold_groups locs (overspeed_step limit s l) ∙ step_groups l locs s

  -- The overspeeds of a trip are the locations above the limit, in order, one event each; their
  -- groups are the runs of such locations, of which there are at most as many.
  pub overspeeds_of-runs :
      (locs : List (Location F))
      → let s = overspeeds_of limit locs in
        (s.overspeeds ≡ map overspeed_of (select is_fast locs))
        × (s.groups_count ≡ runs false locs)
        × (s.groups_count ≤ length (select is_fast locs))
  unfolding overspeeds_of
  overspeeds_of-runs locs =
      let start : Overspeeding F = record { overspeeds = []; groups_count = 0; in_group = false } in
      (
        fold_overspeeds locs start,
        omega (arith, fold_groups locs start),
        omega (arith, fold_groups locs start, runs-le false locs),
      )
