-- ===== src/Event/Rules/Level.antt =====
-- The rules on levels that cross a limit (app/services/event_engine.py).
use Prim.Native.String.{◌++◌}
use welogical_vehicle_tracki.Common.{
  String, not, ◌&&◌, Option, none, some, if◌then◌else◌, ltb_ℤ, Result, ok, ◌>>=◌, ℤ,
}
use welogical_vehicle_tracki.Float.{Float, lit, lt}
use welogical_vehicle_tracki.Json.{Json, null, is_int, is_null, number}
use welogical_vehicle_tracki.Models.{Location}
use welogical_vehicle_tracki.Event.Readings.{
  get_ign, get_fuel_pct, get_fuel_level, get_coolant, get_odo, get_backup_voltage,
}
use welogical_vehicle_tracki.Event.Result.{EventRuleResult, result, nothing, Rule}

module _ {F : Type 0} ⦃fl : Float F⦄ where
  open fl use {le}

  -- A rule on two values that are there: `if prev is not None and curr is not None`.
  abbrev both : Json F → Json F → Result (Option EventRuleResult) → Result (Option EventRuleResult)
  both prev curr rule = if not (is_null prev) && not (is_null curr) then rule else nothing

  -- `prev >= limit and curr < limit`; the second value is only read after the first test.
  abbrev pub falls_below :
      F
      → Json F
      → Json F
      → (F → F → Result (Option EventRuleResult))
      → Result (Option EventRuleResult)
  falls_below limit prev curr event = both prev curr (
      number prev >>= λ p.
      if le limit p
      then (number curr >>= λ c. if lt c limit then event p c else nothing)
      else nothing)

module _ {F : Type 0} ⦃fl : Float F⦄ (prev_loc curr_loc : Location F) where
  open fl use {decimal, le, add, sub, div, trunc, fixed, str_int}

  unfoldable pub low_battery_rule : Result (Option EventRuleResult)
  low_battery_rule = do
    prev_volt ← get_backup_voltage prev_loc
    curr_volt ← get_backup_voltage curr_loc
    falls_below (decimal 36 1) prev_volt curr_volt λ p c.
        result Rule.low_battery ("Internal backup battery low: " ++ fixed 2 c ++ " V")
          (fixed 2 p ++ " V") (fixed 2 c ++ " V")

  unfoldable pub low_fuel_rule : Result (Option EventRuleResult)
  low_fuel_rule = do
    prev_fuel ← get_fuel_pct prev_loc
    curr_fuel ← get_fuel_pct curr_loc
    falls_below (decimal 100 1) prev_fuel curr_fuel λ p c.
        result Rule.low_fuel ("Fuel level low: " ++ fixed 1 c ++ "% remaining") (fixed 1 p ++ "%")
          (fixed 1 c ++ "%")

  unfoldable pub engine_over_temp_rule : Result (Option EventRuleResult)
  engine_over_temp_rule = do
    prev_temp ← get_coolant prev_loc
    curr_temp ← get_coolant curr_loc
    both prev_temp curr_temp (
        number prev_temp >>= λ p.
        if le p (decimal 980 1)
        then (number curr_temp >>= λ c.
            if lt (decimal 980 1) c
            then result Rule.engine_over_temp
                ("Critical engine overheating alert: coolant temperature reached "
                  ++ fixed 1 c
                  ++ "°C")
                (fixed 1 p ++ "°C") (fixed 1 c ++ "°C")
            else nothing)
        else nothing)

  unfoldable pub refueling_started_rule : Result (Option EventRuleResult)
  refueling_started_rule = do
    prev_fuel_level ← get_fuel_level prev_loc
    curr_fuel_level ← get_fuel_level curr_loc
    both prev_fuel_level curr_fuel_level (do
      c ← number curr_fuel_level
      p ← number prev_fuel_level
      if lt (decimal 30 1) (sub c p)
          then result Rule.refueling_started
              ("Refueling detected. Fuel increased by " ++ fixed 1 (sub c p) ++ "L")
              (fixed 1 p ++ " L") (fixed 1 c ++ " L")
          else nothing)

  unfoldable pub refueling_completed_rule : Result (Option EventRuleResult)
  refueling_completed_rule = do
    prev_fuel ← get_fuel_level prev_loc
    curr_fuel ← get_fuel_level curr_loc
    both prev_fuel curr_fuel (do
      prev_ign ← get_ign prev_loc
      curr_ign ← get_ign curr_loc
      if is_int 0 prev_ign && is_int 1 curr_ign
          then (do
            p ← number prev_fuel
            c ← number curr_fuel
            if lt (add p (decimal 50 1)) c
                then result Rule.refueling_completed
                    ("Refueling complete. Final fuel level: " ++ fixed 1 c ++ " L")
                    (fixed 1 p ++ " L") (fixed 1 c ++ " L")
                else nothing)
          else nothing)

-- The odometer rule; without a previous location its value counts as missing.
module _ {F : Type 0} ⦃fl : Float F⦄ where
  open fl use {div, trunc, str_int}

  -- `int(odo / 10000000)` and `f"{int(odo / 1000)} km"`
  abbrev pub milestone : F → ℤ
  milestone odo = trunc (div odo (lit 10000000))

  abbrev kilometres : F → String
  kilometres odo = str_int (trunc (div odo (lit 1000))) ++ " km"

  abbrev previous_odo : Option (Location F) → Result (Json F)
  previous_odo none = ok null
  previous_odo (some prev_loc) = get_odo prev_loc

  unfoldable pub maintenance_due_rule :
      Option (Location F) → Location F → Result (Option EventRuleResult)
  maintenance_due_rule prev_loc curr_loc = do
    prev_odo ← previous_odo prev_loc
    curr_odo ← get_odo curr_loc
    if not (is_null prev_odo) && not (is_null curr_odo)
        then (do
          p ← number prev_odo
          c ← number curr_odo
          if ltb_ℤ (milestone p) (milestone c)
              then result Rule.maintenance_due
                  ("Odometer milestone crossed: " ++ kilometres c ++ ". Scheduled service due.")
                  (kilometres p) (kilometres c)
              else nothing)
        else nothing
