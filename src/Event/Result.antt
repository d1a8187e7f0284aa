-- ===== src/Event/Result.antt =====
-- What an event rule returns, and the class attributes of the rules (app/services/event_engine.py).
use welogical_vehicle_tracki.Common.{String, Option, none, some, Result, ok}

-- `EventRuleResult`; its metadata is always empty
pub record EventRuleResult : Type 0 where
  pub event_type : String
  pub txn : String
  pub severity : String
  pub description : String
  pub prev_val : String
  pub curr_val : String

-- The registered rules, in the order of `_load_default_rules`.
pub data Rule : Type 0 where
  ignition_on ignition_off vehicle_started vehicle_stopped overspeed harsh_braking : Rule
  harsh_acceleration sharp_turn power_failure power_restored low_battery low_fuel : Rule
  gps_lost gps_restored engine_over_temp refueling_started refueling_completed : Rule
  maintenance_due : Rule

-- The class attributes of a rule: its event type, its transaction code and its severity.
unfoldable pub attributes : Rule → String × String × String
attributes ignition_on = ("Ignition On", "J", "Info")
attributes ignition_off = ("Ignition Off", "J", "Info")
attributes vehicle_started = ("Vehicle Started", "F", "Info")
attributes vehicle_stopped = ("Vehicle Stopped", "G", "Info")
attributes overspeed = ("Overspeed", "D", "Warning")
attributes harsh_braking = ("Harsh Braking", "S", "Critical")
attributes harsh_acceleration = ("Harsh Acceleration", "P", "Critical")
attributes sharp_turn = ("Sharp Turn", "M", "Warning")
attributes power_failure = ("Power Failure", "L", "Critical")
attributes power_restored = ("Power Restored", "L", "Info")
attributes low_battery = ("Low Battery", "B", "Warning")
attributes low_fuel = ("Low Fuel", "U", "Warning")
attributes gps_lost = ("GPS Lost", "U", "Warning")
attributes gps_restored = ("GPS Restored", "U", "Info")
attributes engine_over_temp = ("Engine Over Temperature", "V", "Critical")
attributes refueling_started = ("Refueling Started", "R", "Info")
attributes refueling_completed = ("Refueling Completed", "R", "Info")
attributes maintenance_due = ("Maintenance Due", "Q", "Warning")

-- `EventRuleResult(self.event_type, self.txn, self.severity, description, prev_val, curr_val)`
abbrev pub result : Rule → String → String → String → Result (Option EventRuleResult)
result r description prev_val curr_val =
    let (event_type, txn, severity) = attributes r in
    ok (
      some (record {
        event_type = event_type;
        txn = txn;
        severity = severity;
        description = description;
        prev_val = prev_val;
        curr_val = curr_val;
      }))

abbrev pub nothing : Result (Option EventRuleResult)
nothing = ok none
