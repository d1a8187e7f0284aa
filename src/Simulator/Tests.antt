-- ===== src/Simulator/Tests.antt =====
-- A simulated vehicle of the first profile (app/services/simulator/physics/profiles.py).
use welogical_vehicle_tracki.Common.{◌≡◌, refl, true, false, [], ◌∷◌, ℤ, pos}
use welogical_vehicle_tracki.Float.Fixed.{fixed_float, fixed-IsOrdered, fixed-IsGraded}
use welogical_vehicle_tracki.Simulator.Profile.{VehicleProfile, parked, off, running}
use welogical_vehicle_tracki.Simulator.Engine.{EngineSystem, new_engine}
use welogical_vehicle_tracki.Simulator.Stops.{Tick, switched_off, switched_off-off}
use welogical_vehicle_tracki.Simulator.Motion.{update_speed}
use welogical_vehicle_tracki.Simulator.Updates.{
  Systems, done, next, speed_updated, IsPhysical, Updates-IsPhysical,
}

abbrev calm : VehicleProfile ℤ
calm = record {
  name = "Calm City Driver";
  cruising_speed_min = pos 30000000;
  cruising_speed_max = pos 45000000;
  max_speed = pos 60000000;
  accel_rate = pos 1500000;
  brake_rate = pos 2500000;
  traffic_stop_prob = pos 50000;
  engine_start_prob = pos 50000;
  engine_stop_prob = pos 80000;
  power_failure_prob = pos 0;
  battery_health = pos 980000;
  driving_style = "calm";
  fuel_capacity = pos 50000000;
}

abbrev hot : EngineSystem ℤ
hot = record {
  state = running;
  coolant_temperature = pos 90000000;
  load = pos 20000000;
  state_ticks = pos 0;
}

abbrev tick : Tick ℤ
tick = record {
  motion = parked;
  speed = pos 0;
  max_speed = pos 60000000;
  accel = pos 0;
  idle_load = pos 9000000;
}

switched_off-off_example : (switched_off (tick ∷ tick ∷ tick ∷ []) hot).state ≡ off
switched_off-off_example = switched_off-off tick tick tick [] hot tt

abbrev resting : Systems ℤ
resting = record {
  engine = new_engine;
  motion = record {
    speed = pos 0;
    prev_speed = pos 0;
    state = parked;
    parked_ticks = pos 3;
    target_speed = pos 0;
  };
  power = record {
    main_power_ok = true;
    power_failure_cooldown = pos 30;
    power_failure_ticks = pos 0;
    mvolt = pos 12400000;
    volt = pos 4180000000;
    power_transition_pending = false;
  };
}

abbrev after : Systems ℤ
after = record resting { motion = update_speed calm false (pos 30000000) resting.motion }

Updates-IsPhysical_example : IsPhysical calm after
Updates-IsPhysical_example =
    Updates-IsPhysical fixed-IsOrdered fixed-IsGraded calm (refl, refl, refl) resting after
      (next (speed_updated false (pos 30000000) resting refl) (done after))
      (((refl, refl), (refl, refl)), ((refl, refl), refl), (refl, refl))
