-- ===== src/Notification/Rules.antt =====
-- app/services/notifications/rules.py: the rules, each for one type of event, with the severity, the
-- title and the message of their alerts. `str` prints the number of the vehicle.
use Prim.Native.String.{◌++◌}
use welogical_vehicle_tracki.Common.{ℕ, String, Bool, str_eq}
use welogical_vehicle_tracki.Models.{Event}

pub data NotificationRule : Type 0 where
  overspeed low_fuel low_battery engine_overheat gps_lost power_failure : NotificationRule
  vehicle_offline maintenance_due refueling_completed : NotificationRule

abbrev pub event_type_of : NotificationRule → String
event_type_of overspeed = "Overspeed"
event_type_of low_fuel = "Low Fuel"
event_type_of low_battery = "Low Battery"
event_type_of engine_overheat = "Engine Over Temperature"
event_type_of gps_lost = "GPS Lost"
event_type_of power_failure = "Power Failure"
event_type_of vehicle_offline = "Vehicle Offline"
event_type_of maintenance_due = "Maintenance Due"
event_type_of refueling_completed = "Refueling Completed"

abbrev pub severity_of : NotificationRule → String
severity_of engine_overheat = "Critical"
severity_of power_failure = "Critical"
severity_of refueling_completed = "Info"
severity_of _ = "Warning"

-- `match`
abbrev pub matches : Event → NotificationRule → Bool
matches e r = str_eq e.event_type (event_type_of r)

-- `create_notification_payload`: the title and the message
abbrev pub title_of : NotificationRule → String
title_of overspeed = "Overspeeding Alert"
title_of low_fuel = "Low Fuel Alert"
title_of low_battery = "Low Battery Alert"
title_of engine_overheat = "Engine Overheating Alert"
title_of gps_lost = "GPS Fix Lost"
title_of power_failure = "Power Failure Alert"
title_of vehicle_offline = "Asset Offline Alert"
title_of maintenance_due = "Maintenance Reminder"
title_of refueling_completed = "Refueling Complete"

abbrev pub message_of : (ℕ → String) → NotificationRule → Event → String
message_of str overspeed e =
    "Vehicle ID " ++ str e.vehicle_id ++ " exceeded speed limits: " ++ e.description
message_of str low_fuel e =
    "Vehicle ID " ++ str e.vehicle_id ++ " fuel reserves are low: " ++ e.description
message_of str low_battery e =
    "Vehicle ID " ++ str e.vehicle_id ++ " voltage dropped below threshold: " ++ e.description
message_of str engine_overheat e =
    "CRITICAL: Vehicle ID "
    ++ str e.vehicle_id
    ++ " cooling coolant temperature reached dangerous levels: "
    ++ e.description
message_of str gps_lost e =
    "Vehicle ID " ++ str e.vehicle_id ++ " has lost satellite telemetry fix."
message_of str power_failure e =
    "CRITICAL: External battery mains disconnected on Vehicle ID " ++ str e.vehicle_id ++ "."
message_of str vehicle_offline e =
    "Vehicle ID " ++ str e.vehicle_id ++ " has been offline for over 30 minutes."
message_of str maintenance_due e =
    "Odometer milestone crossed on Vehicle ID "
    ++ str e.vehicle_id
    ++ ". Routine service recommended."
message_of str refueling_completed e =
    "Vehicle ID " ++ str e.vehicle_id ++ " refueling sequence concluded successfully."
