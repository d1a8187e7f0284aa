-- ===== src/Event/Rules/Switch.antt =====
-- The rules on values that switch: ignition, mains power, GPS fix (app/services/event_engine.py).
use welogical_vehicle_tracki.Common.{◌&&◌, Option, if◌then◌else◌, Result, ◌>>=◌}
use welogical_vehicle_tracki.Float.{Float}
use welogical_vehicle_tracki.Json.{is_int, is_str}
use welogical_vehicle_tracki.Models.{Location}
use welogical_vehicle_tracki.Event.Readings.{get_ign, get_main_power, get_fix}
use welogical_vehicle_tracki.Event.Result.{EventRuleResult, result, nothing, Rule}

module _ {F : Type 0} ⦃fl : Float F⦄ (prev_loc curr_loc : Location F) where
  open fl use {decimal, le, add, sub, div, trunc, fixed, str_int}

  unfoldable pub ignition_on_rule : Result (Option EventRuleResult)
  ignition_on_rule = do
    prev_ign ← get_ign prev_loc
    curr_ign ← get_ign curr_loc
    if is_int 0 prev_ign && is_int 1 curr_ign
        then result Rule.ignition_on "Vehicle ignition turned ON" "OFF" "ON"
        else nothing

  unfoldable pub ignition_off_rule : Result (Option EventRuleResult)
  ignition_off_rule = do
    prev_ign ← get_ign prev_loc
    curr_ign ← get_ign curr_loc
    if is_int 1 prev_ign && is_int 0 curr_ign
        then result Rule.ignition_off "Vehicle ignition turned OFF" "ON" "OFF"
        else nothing

  unfoldable pub power_failure_rule : Result (Option EventRuleResult)
  power_failure_rule = do
    prev_pwr ← get_main_power prev_loc
    curr_pwr ← get_main_power curr_loc
    if is_int 1 prev_pwr && is_int 0 curr_pwr
        then result Rule.power_failure "External mains power cut. Running on backup battery."
            "Connected" "Disconnected"
        else nothing

  unfoldable pub power_restored_rule : Result (Option EventRuleResult)
  power_restored_rule = do
    prev_pwr ← get_main_power prev_loc
    curr_pwr ← get_main_power curr_loc
    if is_int 0 prev_pwr && is_int 1 curr_pwr
        then result Rule.power_restored "External mains power restored. Battery charging."
            "Disconnected" "Connected"
        else nothing

  unfoldable pub gps_lost_rule : Result (Option EventRuleResult)
  gps_lost_rule = do
    prev_fix ← get_fix prev_loc
    curr_fix ← get_fix curr_loc
    if is_str "A" prev_fix && is_str "V" curr_fix
        then result Rule.gps_lost "GPS lost fix. Triangulation offline." "Valid (A)" "Invalid (V)"
        else nothing

  unfoldable pub gps_restored_rule : Result (Option EventRuleResult)
  gps_restored_rule = do
    prev_fix ← get_fix prev_loc
    curr_fix ← get_fix curr_loc
    if is_str "V" prev_fix && is_str "A" curr_fix
        then result Rule.gps_restored "GPS receiver fix restored." "Invalid (V)" "Valid (A)"
        else nothing
