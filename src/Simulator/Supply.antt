-- ===== src/Simulator/Supply.antt =====
-- `PowerSystem` of app/services/simulator/physics/power.py and `FuelSystem` of
-- app/services/simulator/physics/fuel.py.
use welogical_vehicle_tracki.Common.{
  String, Bool, true, false, ◌&&◌, if◌then◌else◌, ℤ, str_eq, Option, none, some,
}
use welogical_vehicle_tracki.Float.{Float, lt, fmax, fmin}
use welogical_vehicle_tracki.Simulator.Profile.{
  VehicleProfile, VehicleState, parked, idle, driving, stopped_in_traffic, power_failure,
}
use welogical_vehicle_tracki.Simulator.Engine.{tick_down, is_over}

pub record PowerSystem (F : Type 0) : Type 0 where
  pub main_power_ok : Bool
  pub power_failure_cooldown : ℤ
  pub power_failure_ticks : ℤ
  pub mvolt : F
  pub volt : F
  pub power_transition_pending : Bool

-- The chance of a failure, its ticks, the cooldown after it, the drain, the target of the main voltage
-- and the charge.
pub record PowerDraws (F : Type 0) : Type 0 where
  pub chance : F
  pub ticks : ℤ
  pub cooldown : ℤ
  pub drain : F
  pub target : F
  pub charge : F

pub record FuelSystem (F : Type 0) : Type 0 where
  pub capacity : F
  pub current_fuel : F
  pub fuel_pct : F
  pub base_consumption : F
  pub is_refueling : Bool
  pub fuel_transition_pending : Bool
  pub fuel_status_log : String

-- The amount refuelled, the chance to begin it, and what a strong acceleration takes.
pub record FuelDraws (F : Type 0) : Type 0 where
  pub amount : F
  pub chance : F
  pub surge : F

abbrev pub is_failing : VehicleState → Bool
is_failing power_failure = true
is_failing _ = false

abbrev pub may_refuel : VehicleState → Bool
may_refuel parked = true
may_refuel idle = true
may_refuel _ = false

module _ {F : Type 0} ⦃fl : Float F⦄ where
  open fl use {decimal, neg, add, sub, mul, div, le}

  -- The voltages of a tick.
  abbrev pub supplied : VehicleProfile F → PowerDraws F → PowerSystem F → PowerSystem F
  supplied profile d p =
      if p.main_power_ok
      then record p {
        mvolt = add p.mvolt (fmax (neg (decimal 8 2)) (fmin (decimal 8 2) (sub d.target p.mvolt)));
        volt =
            if lt p.volt (decimal 42000 1)
            then fmin (decimal 42000 1) (add p.volt d.charge)
            else p.volt;
      }
      else record p {
        mvolt = decimal 0 1;
        volt =
            fmax (decimal 35000 1)
              (sub p.volt (mul d.drain (sub (decimal 20 1) profile.battery_health)));
      }

  -- A tick of a power failure.
  abbrev pub restored : PowerDraws F → PowerSystem F → PowerSystem F
  restored d p =
      let ticks = tick_down p.power_failure_ticks in
      if is_over ticks
      then record p {
        power_failure_ticks = ticks;
        main_power_ok = true;
        power_transition_pending = true;
        power_failure_cooldown = d.cooldown;
      }
      else record p { power_failure_ticks = ticks }

  -- A failure ends the update.
  unfoldable pub update_power :
      VehicleProfile F → VehicleState → PowerDraws F → PowerSystem F → PowerSystem F
  update_power profile state d p =
      if is_failing state
      then supplied profile d (restored d p)
      else (let cooldown = tick_down p.power_failure_cooldown in
          if is_over cooldown && lt d.chance profile.power_failure_prob
          then record p {
            power_failure_cooldown = cooldown;
            main_power_ok = false;
            power_failure_ticks = d.ticks;
            power_transition_pending = true;
          }
          else supplied profile d (record p { power_failure_cooldown = cooldown }))

  abbrev pub percent : FuelSystem F → FuelSystem F
  percent f = record f { fuel_pct = mul (div f.current_fuel f.capacity) (decimal 1000 1) }

  abbrev pub base_consumption_of : String → F
  base_consumption_of style =
      if str_eq style "aggressive"
      then decimal 115 1
      else if str_eq style "calm"
      then decimal 65 1
      else decimal 80 1

  -- `__init__`: `share` is the draw of how full the tank is.
  abbrev pub new_fuel : VehicleProfile F → Option F → F → FuelSystem F
  new_fuel profile capacity_liters share =
      let capacity = tank_of capacity_liters in
      percent (record {
        capacity = capacity;
        current_fuel = mul capacity share;
        fuel_pct = decimal 0 1;
        base_consumption = base_consumption_of profile.driving_style;
        is_refueling = false;
        fuel_transition_pending = false;
        fuel_status_log = "NORMAL";
      })
    where
      tank_of : Option F → F
      tank_of none = profile.fuel_capacity
      tank_of (some c) = if lt (decimal 0 1) c then c else profile.fuel_capacity

  abbrev pub refuelled : F → FuelSystem F → FuelSystem F
  refuelled amount f =
      let filled =
        percent (record f { current_fuel = fmin f.capacity (add f.current_fuel amount) }) in
      if le (mul f.capacity (decimal 98 2)) filled.current_fuel
      then record filled {
        current_fuel = f.capacity;
        is_refueling = false;
        fuel_transition_pending = true;
        fuel_status_log = "REFUELED";
      }
      else filled

  abbrev pub burnt : F → FuelSystem F → FuelSystem F
  burnt consumed f =
      percent (record f { current_fuel = fmax (decimal 0 1) (sub f.current_fuel consumed) })

  abbrev pub idle_consumption : F → F → FuelSystem F → F
  idle_consumption rpm send_interval f =
      let rate =
        mul (mul (div rpm (decimal 10000 1)) (decimal 7 1))
          (div f.base_consumption (decimal 80 1)) in
      mul (div rate (decimal 36000 1)) send_interval

  abbrev pub driving_consumption : F → F → F → F → F → FuelDraws F → FuelSystem F → F
  driving_consumption speed prev_speed load rpm send_interval d f =
      let distance_km = mul (div speed (decimal 36000 1)) send_interval in
      let rate =
        mul (mul f.base_consumption (div load (decimal 400 1))) (div rpm (decimal 20000 1)) in
      let dynamic =
        fmax (mul f.base_consumption (decimal 5 1))
          (fmin (mul f.base_consumption (decimal 25 1)) rate) in
      let total =
        if lt (decimal 40 1) (sub speed prev_speed) then add dynamic d.surge else dynamic in
      mul (div total (decimal 1000 1)) distance_km

  abbrev pub consumed_in :
      VehicleState → F → F → F → F → F → FuelDraws F → FuelSystem F → FuelSystem F
  consumed_in parked speed prev_speed load rpm send_interval d f = f
  consumed_in idle speed prev_speed load rpm send_interval d f =
      burnt (idle_consumption rpm send_interval f) f
  consumed_in stopped_in_traffic speed prev_speed load rpm send_interval d f =
      burnt (idle_consumption rpm send_interval f) f
  consumed_in driving speed prev_speed load rpm send_interval d f =
      burnt (driving_consumption speed prev_speed load rpm send_interval d f) f
  consumed_in _ speed prev_speed load rpm send_interval d f = percent f

  unfoldable pub update_fuel :
      VehicleState → F → F → F → F → F → FuelDraws F → FuelSystem F → FuelSystem F
  update_fuel state speed prev_speed load rpm send_interval d f =
      if f.is_refueling
      then refuelled d.amount f
      else if lt f.fuel_pct (decimal 100 1) && (may_refuel state && lt d.chance (decimal 20 2))
      then record f {
        is_refueling = true;
        fuel_transition_pending = true;
        fuel_status_log = "REFUEL_START";
      }
      else consumed_in state speed prev_speed load rpm send_interval d f

  abbrev pub estimated_range : FuelSystem F → F
  estimated_range f = mul (div f.current_fuel f.base_consumption) (decimal 1000 1)
