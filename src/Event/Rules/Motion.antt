-- ===== src/Event/Rules/Motion.antt =====
-- The rules on speed and heading (app/services/event_engine.py).
use Prim.Native.String.{◌++◌}
use welogical_vehicle_tracki.Common.{
  String, Bool, false, ◌&&◌, ◌||◌, Option, none, some, if◌then◌else◌, Result, ◌>>=◌,
}
use welogical_vehicle_tracki.Float.{Float, lt, fabs}
use welogical_vehicle_tracki.Json.{null, Dict, get_or, is_filled, is_int, is_str, number}
use welogical_vehicle_tracki.Models.{Location}
use welogical_vehicle_tracki.Event.Readings.{get_ign, get_heading}
use welogical_vehicle_tracki.Event.Result.{EventRuleResult, result, nothing, Rule}

module _ {F : Type 0} ⦃fl : Float F⦄ where
  open fl use {decimal, sub}

  -- `curr_loc.extra_data and curr_loc.extra_data.get("txn") == code`
  abbrev pub has_txn : String → Option (Dict F) → Bool
  has_txn code none = false
  has_txn code (some extra) = is_filled extra && is_str code (get_or "txn" null extra)

  -- The smaller of the two angles between two headings.
  unfoldable pub heading_delta : F → F → F
  heading_delta prev_dir curr_dir =
      let dir_diff = fabs (sub curr_dir prev_dir) in
      if lt (decimal 1800 1) dir_diff then sub (decimal 3600 1) dir_diff else dir_diff

module _ {F : Type 0} ⦃fl : Float F⦄ (prev_loc curr_loc : Location F) where
  open fl use {decimal, le, add, sub, div, trunc, fixed, str_int}

  unfoldable pub vehicle_started_rule : Result (Option EventRuleResult)
  vehicle_started_rule = do
    curr_ign ← get_ign curr_loc
    if le prev_loc.speed (decimal 1 1) && lt (decimal 1 1) curr_loc.speed && is_int 1 curr_ign
        then result Rule.vehicle_started
            ("Vehicle started moving. Speed: " ++ fixed 1 curr_loc.speed ++ " km/h") "Stopped"
            "Moving"
        else nothing

  unfoldable pub vehicle_stopped_rule : Result (Option EventRuleResult)
  vehicle_stopped_rule =
      if lt (decimal 1 1) prev_loc.speed && le curr_loc.speed (decimal 1 1)
      then result Rule.vehicle_stopped "Vehicle came to a complete halt" "Moving" "Stopped"
      else nothing

  unfoldable pub overspeed_rule : Result (Option EventRuleResult)
  overspeed_rule =
      if le prev_loc.speed (decimal 1000 1) && lt (decimal 1000 1) curr_loc.speed
      then result Rule.overspeed
          ("Overspeed warning: speed "
            ++ fixed 1 curr_loc.speed
            ++ " km/h exceeded limit of 100 km/h")
          (fixed 1 prev_loc.speed ++ " km/h") (fixed 1 curr_loc.speed ++ " km/h")
      else nothing

  unfoldable pub harsh_braking_rule : Result (Option EventRuleResult)
  harsh_braking_rule =
      if (lt (decimal 150 1) (sub prev_loc.speed curr_loc.speed) || has_txn "S" curr_loc.extra_data)
        && lt curr_loc.speed prev_loc.speed
      then result Rule.harsh_braking
          ("Harsh braking event. Decelerated from "
            ++ fixed 1 prev_loc.speed
            ++ " to "
            ++ fixed 1 curr_loc.speed
            ++ " km/h")
          (fixed 1 prev_loc.speed) (fixed 1 curr_loc.speed)
      else nothing

  unfoldable pub harsh_acceleration_rule : Result (Option EventRuleResult)
  harsh_acceleration_rule =
      if (lt (decimal 100 1) (sub curr_loc.speed prev_loc.speed) || has_txn "P" curr_loc.extra_data)
        && lt prev_loc.speed curr_loc.speed
      then result Rule.harsh_acceleration
          ("Harsh acceleration event. Accelerated from "
            ++ fixed 1 prev_loc.speed
            ++ " to "
            ++ fixed 1 curr_loc.speed
            ++ " km/h")
          (fixed 1 prev_loc.speed) (fixed 1 curr_loc.speed)
      else nothing

  unfoldable pub sharp_turn_rule : Result (Option EventRuleResult)
  sharp_turn_rule = do
    prev_dir ← get_heading prev_loc
    curr_dir ← get_heading curr_loc
    c ← number curr_dir
    p ← number prev_dir
    if lt (decimal 450 1) (heading_delta p c) && lt (decimal 200 1) curr_loc.speed
        then result Rule.sharp_turn
            ("Sharp turn warning at speed "
              ++ fixed 1 curr_loc.speed
              ++ " km/h. Heading delta: "
              ++ fixed 1 (heading_delta p c)
              ++ "°")
            (fixed 1 p ++ "°") (fixed 1 c ++ "°")
        else nothing
