-- ===== src/Event/Readings.antt =====
-- The property extraction of app/services/event_engine.py: what the rules read from a location. A
-- value that is no dictionary raises where the source calls `.get` on it.
use welogical_vehicle_tracki.Common.{String, none, some, if◌then◌else◌, Result, ok, ◌>>=◌}
use welogical_vehicle_tracki.Float.{Float}
use welogical_vehicle_tracki.Json.{Json, null, num, get_in, is_filled, is_null, number}
use welogical_vehicle_tracki.Models.{Location}

module _ {F : Type 0} where
  -- `extra.get(outer, {}).get(inner) if extra else default`
  abbrev pub reading : Json F → String → String → Location F → Result (Json F)
  reading default outer inner loc = elim loc.extra_data [
    | none ↦ ok default
    | some extra ↦ if is_filled extra then get_in outer inner extra else ok default
  ]

  unfoldable pub get_ign : Location F → Result (Json F)
  get_ign = reading null "io" "ign"

  unfoldable pub get_main_power : Location F → Result (Json F)
  get_main_power = reading null "pwr" "main"

  unfoldable pub get_fuel_pct : Location F → Result (Json F)
  get_fuel_pct = reading null "fuel" "percentage"

  unfoldable pub get_fuel_level : Location F → Result (Json F)
  get_fuel_level = reading null "fuel" "level"

  unfoldable pub get_fix : Location F → Result (Json F)
  get_fix = reading null "gps_details" "fix"

  unfoldable pub get_coolant : Location F → Result (Json F)
  get_coolant = reading null "engine" "coolant_temperature"

  unfoldable pub get_odo : Location F → Result (Json F)
  get_odo = reading null "gps_details" "odo"

module _ {F : Type 0} ⦃fl : Float F⦄ where
  unfoldable pub get_heading : Location F → Result (Json F)
  get_heading = reading (num (fl.decimal 0 1)) "gps_details" "dir"

  -- The voltage in volts: the millivolts of "pwr", else the backup voltage of "power".
  unfoldable pub get_backup_voltage : Location F → Result (Json F)
  get_backup_voltage loc = reading null "pwr" "volt" loc >>= λ volt.
      if is_null volt
      then reading null "power" "backup_voltage" loc
      else (number volt >>= λ millivolts. ok (num (fl.div millivolts (fl.decimal 10000 1))))
