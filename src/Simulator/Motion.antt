-- ===== src/Simulator/Motion.antt =====
-- `VehicleMotion` of app/services/simulator/physics/motion.py: its state machine and its speed. The
-- geometry of the route is left to app/services/simulator/physics/gps.py.
use welogical_vehicle_tracki.Common.{Bool, true, false, ◌||◌, if◌then◌else◌, ℤ}
use welogical_vehicle_tracki.Float.{Float, lt, fmax, fmin}
use welogical_vehicle_tracki.Simulator.Profile.{
  VehicleProfile, VehicleState, parked, idle, driving, stopped_in_traffic, power_failure,
  recovering,
}
use welogical_vehicle_tracki.Simulator.Engine.{tick_down, is_over}

pub record VehicleMotion (F : Type 0) : Type 0 where
  pub speed : F
  pub prev_speed : F
  pub state : VehicleState
  pub parked_ticks : ℤ
  pub target_speed : F

-- What one call of `update_state` may draw: two chances, a cruising speed, and the ticks of the next
-- stay in the park, after its end and after the engine stops.
pub record MotionDraws (F : Type 0) : Type 0 where
  pub first : F
  pub second : F
  pub cruising : F
  pub ticks : ℤ

abbrev pub stands : VehicleState → Bool
stands parked = true
stands power_failure = true
stands recovering = true
stands _ = false

module _ {F : Type 0} ⦃fl : Float F⦄ where
  open fl use {decimal, add, sub, mul, le}

  abbrev pub set_off : F → VehicleMotion F → VehicleMotion F
  set_off cruising m = record m { state = driving; target_speed = cruising }

  -- With power, when the failure is over, and with no loop.
  abbrev pub wander :
      VehicleProfile F → MotionDraws F → VehicleState → VehicleMotion F → VehicleMotion F
  wander profile d parked m =
      if is_over (tick_down m.parked_ticks)
      then record m { state = idle; parked_ticks = d.ticks }
      else record m { parked_ticks = tick_down m.parked_ticks }
  wander profile d idle m =
      if lt d.first profile.engine_start_prob
      then set_off d.cruising m
      else if lt d.second profile.engine_stop_prob
      then record m { state = parked; parked_ticks = d.ticks }
      else m
  wander profile d driving m =
      if lt d.first profile.traffic_stop_prob
      then record m { state = stopped_in_traffic }
      else if lt d.second (mul profile.engine_stop_prob (decimal 3 1))
      then record m { state = idle }
      else m
  wander profile d stopped_in_traffic m =
      if lt d.first (decimal 35 2) then record m { state = driving } else m
  wander profile d _ m = m

  -- `loop_route` keeps the vehicle driving.
  abbrev pub keep_driving : MotionDraws F → VehicleState → VehicleMotion F → VehicleMotion F
  keep_driving d driving m = m
  keep_driving d _ m = set_off d.cruising m

  abbrev pub with_power :
      VehicleProfile F → Bool → MotionDraws F → VehicleState → VehicleMotion F → VehicleMotion F
  with_power profile loop_route d power_failure m = record m { state = recovering }
  with_power profile loop_route d recovering m = record m { state = parked }
  with_power profile loop_route d state m =
      if loop_route then keep_driving d state m else wander profile d state m

  unfoldable pub update_state :
      VehicleProfile F → Bool → Bool → MotionDraws F → VehicleMotion F → VehicleMotion F
  update_state profile loop_route main_power_ok d m =
      if main_power_ok
      then with_power profile loop_route d m.state m
      else record m { state = power_failure }

  abbrev pub target_of : VehicleState → F → F → F
  target_of idle target cruising = decimal 0 1
  target_of stopped_in_traffic target cruising = decimal 0 1
  target_of driving target cruising = if le target (decimal 0 1) then cruising else target
  target_of _ target cruising = target

  -- The speed after an acceleration or a braking towards the target.
  abbrev pub approached : VehicleProfile F → F → F → F
  approached profile target speed =
      let diff = sub target speed in
      if lt (decimal 0 0) diff
      then fmin target (add speed profile.accel_rate)
      else if lt diff (decimal 0 0)
      then fmax target (sub speed profile.brake_rate)
      else speed

  unfoldable pub update_speed : VehicleProfile F → Bool → F → VehicleMotion F → VehicleMotion F
  update_speed profile stopped_by_immobilizer cruising m =
      let target = target_of m.state m.target_speed cruising in
      if stopped_by_immobilizer || stands m.state
      then record m {
        prev_speed = m.speed;
        speed = fmax (decimal 0 1) (sub m.speed (mul profile.brake_rate (decimal 20 1)));
      }
      else record m {
        prev_speed = m.speed;
        target_speed = target;
        speed = fmin (approached profile target m.speed) profile.max_speed;
      }
