-- ===== src/Event/Rules.antt =====
-- The dispatch over the event rules of app/services/event_engine.py. `evaluate` returns `ok none` for
-- no event, and an error where the source raises.
mod Motion
mod Switch
mod Level
unfoldable pub use Motion.*
unfoldable pub use Switch.*
unfoldable pub use Level.*
use welogical_vehicle_tracki.Common.{Option, none, some, Result}
use welogical_vehicle_tracki.Float.{Float}
use welogical_vehicle_tracki.Models.{Location}
use welogical_vehicle_tracki.Event.Result.{
  EventRuleResult, nothing, Rule, ignition_on, ignition_off, vehicle_started, vehicle_stopped,
  overspeed, harsh_braking, harsh_acceleration, sharp_turn, power_failure, power_restored,
  low_battery, low_fuel, gps_lost, gps_restored, engine_over_temp, refueling_started,
  refueling_completed, maintenance_due,
}

module _ {F : Type 0} ⦃fl : Float F⦄ where
  -- The rules that return at once without a previous location.
  abbrev with_previous :
      (Location F → Location F → Result (Option EventRuleResult))
      → Option (Location F)
      → Location F
      → Result (Option EventRuleResult)
  with_previous rule none curr_loc = nothing
  with_previous rule (some prev_loc) curr_loc = rule prev_loc curr_loc

  -- `rule.evaluate(prev_loc, curr_loc)`
  unfoldable pub evaluate :
      Rule → Option (Location F) → Location F → Result (Option EventRuleResult)
  evaluate ignition_on = with_previous ignition_on_rule
  evaluate ignition_off = with_previous ignition_off_rule
  evaluate vehicle_started = with_previous vehicle_started_rule
  evaluate vehicle_stopped = with_previous vehicle_stopped_rule
  evaluate overspeed = with_previous overspeed_rule
  evaluate harsh_braking = with_previous harsh_braking_rule
  evaluate harsh_acceleration = with_previous harsh_acceleration_rule
  evaluate sharp_turn = with_previous sharp_turn_rule
  evaluate power_failure = with_previous power_failure_rule
  evaluate power_restored = with_previous power_restored_rule
  evaluate low_battery = with_previous low_battery_rule
  evaluate low_fuel = with_previous low_fuel_rule
  evaluate gps_lost = with_previous gps_lost_rule
  evaluate gps_restored = with_previous gps_restored_rule
  evaluate engine_over_temp = with_previous engine_over_temp_rule
  evaluate refueling_started = with_previous refueling_started_rule
  evaluate refueling_completed = with_previous refueling_completed_rule
  evaluate maintenance_due = maintenance_due_rule
