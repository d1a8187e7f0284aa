-- ===== src/Simulator/Speed.antt =====
-- The speeds that the motion of a simulated vehicle keeps
-- (app/services/simulator/physics/motion.py).
use welogical_vehicle_tracki.Common.{
  ◌≡◌, Bool, true, false, ◌||◌, if◌then◌else◌, arith, inl, inr, Bool-cases,
}
use welogical_vehicle_tracki.Float.{Float}
use welogical_vehicle_tracki.Float.Laws.{
  IsOrdered, IsGraded, fmax-left, fmax-least, fmin-right, fmin-greatest, Within,
}
use welogical_vehicle_tracki.Simulator.Profile.{
  VehicleProfile, VehicleState, parked, idle, driving, stopped_in_traffic, power_failure,
  recovering,
}
use welogical_vehicle_tracki.Simulator.Motion.{
  VehicleMotion, MotionDraws, update_state, update_speed, with_power, wander, keep_driving,
  target_of, approached, stands,
}

module _ {F : Type 0} ⦃fl : Float F⦄ where
  open fl use {decimal, le}

  -- A speed between 0 and the greatest of the profile, and a target that is not negative.
  abbrev pub IsSafe : VehicleProfile F → VehicleMotion F → Type 0
  IsSafe profile m =
      Within (decimal 0 1) profile.max_speed m.speed × (le (decimal 0 1) m.target_speed ≡ true)

  abbrev pub IsRoadworthy : VehicleProfile F → Type 0
  IsRoadworthy profile =
      (le (decimal 0 1) profile.max_speed ≡ true)
      × (le (decimal 0 0) profile.accel_rate ≡ true)
      × (le (decimal 0 0) profile.brake_rate ≡ true)

module _ {F : Type 0} ⦃fl : Float F⦄ (o : IsOrdered F) (g : IsGraded F) where
  open fl use {decimal, sub, mul, add, le}
  open o use {le_refl, le_trans, decimal_mono, add_grows, mul_nonneg}
  open g use {sub_shrinks}

  target-nonneg :
      (s : VehicleState) (target cruising : F)
      → le (decimal 0 1) target ≡ true
      → le (decimal 0 1) cruising ≡ true
      → le (decimal 0 1) (target_of s target cruising) ≡ true
  target-nonneg idle target cruising h k = le_refl (decimal 0 1)
  target-nonneg stopped_in_traffic target cruising h k = le_refl (decimal 0 1)
  target-nonneg driving target cruising h k = ground arith
  target-nonneg parked target cruising h k = h
  target-nonneg power_failure target cruising h k = h
  target-nonneg recovering target cruising h k = h

  approached-nonneg :
      (profile : VehicleProfile F) (target speed : F)
      → IsRoadworthy profile
      → le (decimal 0 1) target ≡ true
      → le (decimal 0 1) speed ≡ true
      → le (decimal 0 1) (approached profile target speed) ≡ true
  approached-nonneg profile target speed (_, accelerates, _) h k = ground (
    arith,
    fmin-greatest o target (add speed profile.accel_rate) (decimal 0 1) h
        (le_trans _ _ _ k (add_grows speed profile.accel_rate accelerates)),
    le_trans _ _ _ h (fmax-left o target (sub speed profile.brake_rate)),
  )

  pub update_speed-IsSafe :
      (profile : VehicleProfile F) (stopped : Bool) (cruising : F) (m : VehicleMotion F)
      → IsRoadworthy profile
      → le (decimal 0 1) cruising ≡ true
      → IsSafe profile m
      → IsSafe profile (update_speed profile stopped cruising m)
  unfolding update_speed
  update_speed-IsSafe profile stopped cruising m road k ((low, high), target) =
      let braking : le (decimal 0 0) (mul profile.brake_rate (decimal 20 1)) ≡ true =
        mul_nonneg profile.brake_rate (decimal 20 1) road.2 (decimal_mono 0 0 20 1 (omega arith)) in
      let aim = target-nonneg m.state m.target_speed cruising target k in
      elim (Bool-cases (stopped || stands m.state)) [
        | inl halt ↦ rw halt (
          (
            fmax-left o _ _,
            fmax-least o _ _ _ road.0 (le_trans _ _ _ (sub_shrinks m.speed _ braking) high),
          ),
          target,
        )
        | inr go ↦ rw go (
          (
            fmin-greatest o _ _ _ (approached-nonneg profile _ m.speed road aim low) road.0,
            fmin-right o _ _,
          ),
          aim,
        )
      ]

  wander-IsSafe :
      (profile : VehicleProfile F) (d : MotionDraws F) (s : VehicleState) (m : VehicleMotion F)
      → le (decimal 0 1) d.cruising ≡ true
      → IsSafe profile m
      → IsSafe profile (wander profile d s m)
  wander-IsSafe profile d parked m k h = ground arith
  wander-IsSafe profile d idle m k h = ground arith
  wander-IsSafe profile d driving m k h = ground arith
  wander-IsSafe profile d stopped_in_traffic m k h = ground arith
  wander-IsSafe profile d power_failure m k h = h
  wander-IsSafe profile d recovering m k h = h

  driving-IsSafe :
      (profile : VehicleProfile F) (d : MotionDraws F) (s : VehicleState) (m : VehicleMotion F)
      → le (decimal 0 1) d.cruising ≡ true
      → IsSafe profile m
      → IsSafe profile (keep_driving d s m)
  driving-IsSafe profile d driving m k h = h
  driving-IsSafe profile d parked m k h = (h.0, k)
  driving-IsSafe profile d idle m k h = (h.0, k)
  driving-IsSafe profile d stopped_in_traffic m k h = (h.0, k)
  driving-IsSafe profile d power_failure m k h = (h.0, k)
  driving-IsSafe profile d recovering m k h = (h.0, k)

  either-IsSafe :
      (profile : VehicleProfile F) (b : Bool) (m n : VehicleMotion F)
      → IsSafe profile m
      → IsSafe profile n
      → IsSafe profile (if b then m else n)
  either-IsSafe profile true m n h k = h
  either-IsSafe profile false m n h k = k

  powered-IsSafe :
      (profile : VehicleProfile F) (loop_route : Bool) (d : MotionDraws F) (s : VehicleState)
      (m : VehicleMotion F)
      → le (decimal 0 1) d.cruising ≡ true
      → IsSafe profile m
      → IsSafe profile (with_power profile loop_route d s m)
  powered-IsSafe profile loop_route d power_failure m k h = h
  powered-IsSafe profile loop_route d recovering m k h = h
  powered-IsSafe profile loop_route d parked m k h =
      either-IsSafe profile loop_route _ _ (driving-IsSafe profile d parked m k h)
        (wander-IsSafe profile d parked m k h)
  powered-IsSafe profile loop_route d idle m k h =
      either-IsSafe profile loop_route _ _ (driving-IsSafe profile d idle m k h)
        (wander-IsSafe profile d idle m k h)
  powered-IsSafe profile loop_route d driving m k h =
      either-IsSafe profile loop_route _ _ (driving-IsSafe profile d driving m k h)
        (wander-IsSafe profile d driving m k h)
  powered-IsSafe profile loop_route d stopped_in_traffic m k h =
      either-IsSafe profile loop_route _ _ (driving-IsSafe profile d stopped_in_traffic m k h)
        (wander-IsSafe profile d stopped_in_traffic m k h)

  pub update_state-IsSafe :
      (profile : VehicleProfile F) (loop_route main_power_ok : Bool) (d : MotionDraws F)
      (m : VehicleMotion F)
      → le (decimal 0 1) d.cruising ≡ true
      → IsSafe profile m
      → IsSafe profile (update_state profile loop_route main_power_ok d m)
  unfolding update_state
  update_state-IsSafe profile loop_route main_power_ok d m k h =
      either-IsSafe profile main_power_ok _ _ (powered-IsSafe profile loop_route d m.state m k h) h
