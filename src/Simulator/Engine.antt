-- ===== src/Simulator/Engine.antt =====
-- `EngineSystem` of app/services/simulator/physics/engine.py. `ignition_on` is `ign == 1`, and `idle_load`
-- is the draw of the load of an engine that does not drive.
use welogical_vehicle_tracki.Common.{
  Bool, true, false, ◌||◌, ◌&&◌, if◌then◌else◌, ℤ, pos, negsuc, zero, suc,
}
use welogical_vehicle_tracki.Float.{Float, lt, fmax, fmin}
use welogical_vehicle_tracki.Simulator.Profile.{
  VehicleState, EngineState, off, starting, idling, running, stopping, is_halted, is_driving,
}

pub record EngineSystem (F : Type 0) : Type 0 where
  pub state : EngineState
  pub coolant_temperature : F
  pub load : F
  pub state_ticks : ℤ

-- `ticks - 1` and `ticks <= 0`
abbrev pub tick_down : ℤ → ℤ
tick_down (pos (suc n)) = pos n
tick_down (pos zero) = negsuc 0
tick_down (negsuc n) = negsuc (suc n)

abbrev pub is_over : ℤ → Bool
is_over (pos (suc n)) = false
is_over _ = true

module _ {F : Type 0} ⦃fl : Float F⦄ where
  open fl use {decimal, neg, add, sub, mul, div, le}

  abbrev pub new_engine : EngineSystem F
  new_engine = record {
    state = off;
    coolant_temperature = decimal 250 1;
    load = decimal 0 1;
    state_ticks = pos 0;
  }

  -- The state machine.
  abbrev pub next_engine : Bool → VehicleState → F → EngineState → ℤ → EngineState × ℤ
  next_engine ignition_on motion speed off ticks =
      if ignition_on then (starting, pos 1) else (off, ticks)
  next_engine ignition_on motion speed starting ticks =
      if is_over (tick_down ticks) then (idling, tick_down ticks) else (starting, tick_down ticks)
  next_engine ignition_on motion speed idling ticks =
      if ignition_on
      then (if is_driving motion && lt (decimal 10 1) speed
          then (running, ticks)
          else (idling, ticks))
      else (stopping, pos 1)
  next_engine ignition_on motion speed running ticks =
      if ignition_on
      then (if is_halted motion || le speed (decimal 10 1)
          then (idling, ticks)
          else (running, ticks))
      else (stopping, pos 1)
  next_engine ignition_on motion speed stopping ticks =
      if is_over (tick_down ticks) then (off, tick_down ticks) else (stopping, tick_down ticks)

  -- The temperature that the engine tends to, and how fast.
  abbrev pub thermal_target : EngineState → F → F × F
  thermal_target off load = (decimal 250 1, decimal 3 2)
  thermal_target stopping load = (decimal 250 1, decimal 3 2)
  thermal_target running load =
      (add (decimal 900 1) (mul (div load (decimal 1000 1)) (decimal 80 1)), decimal 6 2)
  thermal_target _ load = (decimal 900 1, decimal 6 2)

  abbrev pub warmed : F → F × F → F
  warmed temperature (target, rate) =
      fmax (decimal 250 1)
        (fmin (decimal 1050 1) (add temperature (mul (sub target temperature) rate)))

  abbrev pub load_of : EngineState → F → F → F → F → F
  load_of off speed max_speed accel idle_load = decimal 0 1
  load_of stopping speed max_speed accel idle_load = decimal 0 1
  load_of running speed max_speed accel idle_load =
      let speed_factor = mul (div speed max_speed) (decimal 450 1) in
      let accel_factor =
        fmax (neg (decimal 100 1)) (fmin (decimal 250 1) (mul accel (decimal 80 1))) in
      fmax (decimal 50 1)
        (fmin (decimal 1000 1) (add (add (decimal 150 1) speed_factor) accel_factor))
  load_of _ speed max_speed accel idle_load = idle_load

  unfoldable pub update_engine :
      Bool → VehicleState → F → F → F → F → EngineSystem F → EngineSystem F
  update_engine ignition_on motion speed max_speed accel idle_load e =
      let (state, ticks) = next_engine ignition_on motion speed e.state e.state_ticks in
      record {
        state = state;
        coolant_temperature = warmed e.coolant_temperature (thermal_target state e.load);
        load = load_of state speed max_speed accel idle_load;
        state_ticks = ticks;
      }
