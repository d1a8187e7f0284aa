-- ===== src/Simulator/Profile.antt =====
-- app/services/simulator/physics/profiles.py: the behaviour of a simulated vehicle; and the states that
-- the systems share (motion.py, engine.py).
use welogical_vehicle_tracki.Common.{String, Bool, true, false, List, [], ◌∷◌}
use welogical_vehicle_tracki.Float.{Float}

pub record VehicleProfile (F : Type 0) : Type 0 where
  pub name : String
  pub cruising_speed_min : F
  pub cruising_speed_max : F
  pub max_speed : F
  pub accel_rate : F
  pub brake_rate : F
  pub traffic_stop_prob : F
  pub engine_start_prob : F
  pub engine_stop_prob : F
  pub power_failure_prob : F
  pub battery_health : F
  pub driving_style : String
  pub fuel_capacity : F

-- `VehicleStateEnum` and `EngineStateEnum`
pub data VehicleState : Type 0 where
  parked idle driving stopped_in_traffic power_failure recovering : VehicleState

pub data EngineState : Type 0 where
  off starting idling running stopping : EngineState

-- `motion_state_str in ("Idle", "Stopped in Traffic")`
abbrev pub is_halted : VehicleState → Bool
is_halted idle = true
is_halted stopped_in_traffic = true
is_halted _ = false

abbrev pub is_driving : VehicleState → Bool
is_driving driving = true
is_driving _ = false

abbrev pub is_parked : VehicleState → Bool
is_parked parked = true
is_parked _ = false

module _ {F : Type 0} ⦃fl : Float F⦄ where
  open fl use {decimal}

  -- `VEHICLE_PROFILES`
  abbrev pub vehicle_profiles : List (VehicleProfile F)
  vehicle_profiles =
      record {
        name = "Calm City Driver";
        cruising_speed_min = decimal 300 1;
        cruising_speed_max = decimal 450 1;
        max_speed = decimal 600 1;
        accel_rate = decimal 15 1;
        brake_rate = decimal 25 1;
        traffic_stop_prob = decimal 5 2;
        engine_start_prob = decimal 5 2;
        engine_stop_prob = decimal 8 2;
        power_failure_prob = decimal 0 2;
        battery_health = decimal 98 2;
        driving_style = "calm";
        fuel_capacity = decimal 500 1;
      }
      ∷ record {
        name = "Highway Vehicle";
        cruising_speed_min = decimal 700 1;
        cruising_speed_max = decimal 900 1;
        max_speed = decimal 1100 1;
        accel_rate = decimal 35 1;
        brake_rate = decimal 40 1;
        traffic_stop_prob = decimal 2 2;
        engine_start_prob = decimal 8 2;
        engine_stop_prob = decimal 5 2;
        power_failure_prob = decimal 1 2;
        battery_health = decimal 95 2;
        driving_style = "normal";
        fuel_capacity = decimal 700 1;
      }
      ∷ record {
        name = "Delivery Vehicle";
        cruising_speed_min = decimal 250 1;
        cruising_speed_max = decimal 550 1;
        max_speed = decimal 800 1;
        accel_rate = decimal 25 1;
        brake_rate = decimal 30 1;
        traffic_stop_prob = decimal 20 2;
        engine_start_prob = decimal 12 2;
        engine_stop_prob = decimal 15 2;
        power_failure_prob = decimal 1 2;
        battery_health = decimal 90 2;
        driving_style = "normal";
        fuel_capacity = decimal 600 1;
      }
      ∷ record {
        name = "Old Vehicle";
        cruising_speed_min = decimal 350 1;
        cruising_speed_max = decimal 600 1;
        max_speed = decimal 850 1;
        accel_rate = decimal 20 1;
        brake_rate = decimal 28 1;
        traffic_stop_prob = decimal 8 2;
        engine_start_prob = decimal 5 2;
        engine_stop_prob = decimal 8 2;
        power_failure_prob = decimal 4 2;
        battery_health = decimal 65 2;
        driving_style = "aggressive";
        fuel_capacity = decimal 550 1;
      }
      ∷ []
