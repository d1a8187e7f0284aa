-- ===== src/Simulator/Updates.antt =====
-- The updates of the systems of a simulated vehicle (app/services/simulator/physics), in any order.
use welogical_vehicle_tracki.Common.{Bool, ◌≡◌, true}
use welogical_vehicle_tracki.Float.{Float}
use welogical_vehicle_tracki.Float.Laws.{IsOrdered, IsGraded, Within}
use welogical_vehicle_tracki.Simulator.Profile.{VehicleProfile}
use welogical_vehicle_tracki.Simulator.Engine.{EngineSystem, update_engine}
use welogical_vehicle_tracki.Simulator.Motion.{
  VehicleMotion, MotionDraws, update_state, update_speed,
}
use welogical_vehicle_tracki.Simulator.Supply.{PowerSystem, PowerDraws, update_power}
use welogical_vehicle_tracki.Simulator.Limits.{
  IsWarm, IsCharged, IsPowerDraw, update_engine-IsWarm, update_power-IsCharged,
}
use welogical_vehicle_tracki.Simulator.Speed.{
  IsSafe, IsRoadworthy, update_speed-IsSafe, update_state-IsSafe,
}

pub record Systems (F : Type 0) : Type 0 where
  pub engine : EngineSystem F
  pub motion : VehicleMotion F
  pub power : PowerSystem F

-- One update, whose draws are in the ranges that the calls of the random generator name.
pub data Update {F : Type 0} ⦃fl : Float F⦄ (profile : VehicleProfile F)
    : Systems F → Systems F → Type 0 where
  engine_updated :
      (ignition_on : Bool) (speed accel idle_load : F) (s : Systems F)
      → Within (fl.decimal 80 1) (fl.decimal 150 1) idle_load
      → Update profile s (record s {
        engine =
            update_engine ignition_on s.motion.state speed profile.max_speed accel idle_load
              s.engine;
      })
  state_updated :
      (loop_route : Bool) (d : MotionDraws F) (s : Systems F)
      → fl.le (fl.decimal 0 1) d.cruising ≡ true
      → Update profile s
          (record s { motion = update_state profile loop_route s.power.main_power_ok d s.motion })
  speed_updated :
      (stopped_by_immobilizer : Bool) (cruising : F) (s : Systems F)
      → fl.le (fl.decimal 0 1) cruising ≡ true
      → Update profile s
          (record s { motion = update_speed profile stopped_by_immobilizer cruising s.motion })
  power_updated :
      (d : PowerDraws F) (s : Systems F)
      → IsPowerDraw profile d
      → Update profile s (record s { power = update_power profile s.motion.state d s.power })

pub data Updates {F : Type 0} ⦃fl : Float F⦄ (profile : VehicleProfile F)
    : Systems F → Systems F → Type 0 where
  done : (s : Systems F) → Updates profile s s
  next : {a b c : Systems F} → Update profile a b → Updates profile b c → Updates profile a c

module _ {F : Type 0} ⦃fl : Float F⦄ where
  abbrev pub IsPhysical : VehicleProfile F → Systems F → Type 0
  IsPhysical profile s = IsWarm s.engine × IsSafe profile s.motion × IsCharged s.power

module _ {F : Type 0} ⦃fl : Float F⦄ (o : IsOrdered F) (g : IsGraded F) (profile : VehicleProfile F)
    (road : IsRoadworthy profile) where
  Update-IsPhysical :
      (a b : Systems F) → Update profile a b → IsPhysical profile a → IsPhysical profile b
  Update-IsPhysical _ _ (engine_updated on speed accel idle_load s d) (warm, safe, charged) = (
    update_engine-IsWarm o g on s.motion.state speed profile.max_speed accel idle_load s.engine d,
    safe,
    charged,
  )
  Update-IsPhysical _ _ (state_updated loop_route d s k) (warm, safe, charged) = (
    warm,
    update_state-IsSafe o g profile loop_route s.power.main_power_ok d s.motion k safe,
    charged,
  )
  Update-IsPhysical _ _ (speed_updated stopped cruising s k) (warm, safe, charged) =
      (warm, update_speed-IsSafe o g profile stopped cruising s.motion road k safe, charged)
  Update-IsPhysical _ _ (power_updated d s k) (warm, safe, charged) =
      (warm, safe, update_power-IsCharged o g profile s.motion.state d s.power k charged)

  -- In whatever order the systems are updated, with draws in their ranges, the coolant stays between
  -- 25 and 105 degrees, the load between 0 and 100 percent, the speed between 0 and the greatest of the
  -- profile, and the backup battery between 3500 and 4200 millivolts. Floats are ordered, and the
  -- profile's rates are not negative.
  pub Updates-IsPhysical :
      (a b : Systems F) → Updates profile a b → IsPhysical profile a → IsPhysical profile b
  Updates-IsPhysical a b (done s) h = h
  Updates-IsPhysical a c (next {b = b} u rest) h =
      Updates-IsPhysical b c rest (Update-IsPhysical a b u h)
