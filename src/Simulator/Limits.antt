-- ===== src/Simulator/Limits.antt =====
-- The physical limits that the engine and the battery of a simulated vehicle keep
-- (app/services/simulator/physics: engine.py, power.py).
use welogical_vehicle_tracki.Common.{◌≡◌, Bool, true, ◌&&◌, arith, inl, inr, Bool-cases}
use welogical_vehicle_tracki.Float.{Float, lt}
use welogical_vehicle_tracki.Float.Laws.{
  IsOrdered, IsGraded, fmax-left, fmax-least, fmin-left, fmin-greatest, Within, clamp-Within,
}
use welogical_vehicle_tracki.Simulator.Profile.{
  VehicleProfile, VehicleState, EngineState, off, starting, idling, running, stopping,
}
use welogical_vehicle_tracki.Simulator.Engine.{
  EngineSystem, update_engine, next_engine, load_of, is_over, tick_down,
}
use welogical_vehicle_tracki.Simulator.Supply.{
  PowerSystem, PowerDraws, update_power, supplied, restored, is_failing,
}

module _ {F : Type 0} ⦃fl : Float F⦄ where
  open fl use {decimal, sub, le}

  -- Between 25 and 105 degrees, and a load between 0 and 100 percent.
  abbrev pub IsWarm : EngineSystem F → Type 0
  IsWarm e =
      Within (decimal 250 1) (decimal 1050 1) e.coolant_temperature
      × Within (decimal 0 1) (decimal 1000 1) e.load

  -- The backup battery between 3500 and 4200 millivolts.
  abbrev pub IsCharged : PowerSystem F → Type 0
  IsCharged p = Within (decimal 35000 1) (decimal 42000 1) p.volt

  -- Draws in the ranges that the calls name, and a battery whose health is at most 2.
  abbrev pub IsPowerDraw : VehicleProfile F → PowerDraws F → Type 0
  IsPowerDraw profile d =
      (le (decimal 0 0) d.drain ≡ true)
      × (le (decimal 0 0) d.charge ≡ true)
      × (le (decimal 0 0) (sub (decimal 20 1) profile.battery_health) ≡ true)

module _ {F : Type 0} ⦃fl : Float F⦄ (o : IsOrdered F) (g : IsGraded F) where
  open fl use {decimal, sub, mul, add, le}
  open o use {le_refl, le_trans, decimal_mono, add_grows, mul_nonneg}
  open g use {sub_shrinks}

  load-Within :
      (s : EngineState) (speed max_speed accel idle_load : F)
      → Within (decimal 80 1) (decimal 150 1) idle_load
      → Within (decimal 0 1) (decimal 1000 1) (load_of s speed max_speed accel idle_load)
  load-Within off speed max_speed accel idle_load d =
      (le_refl (decimal 0 1), decimal_mono 0 1 1000 1 (omega arith))
  load-Within stopping speed max_speed accel idle_load d =
      (le_refl (decimal 0 1), decimal_mono 0 1 1000 1 (omega arith))
  load-Within starting speed max_speed accel idle_load d = (
    le_trans _ _ _ (decimal_mono 0 1 80 1 (omega arith)) d.0,
    le_trans _ _ _ d.1 (decimal_mono 150 1 1000 1 (omega arith)),
  )
  load-Within idling speed max_speed accel idle_load d = (
    le_trans _ _ _ (decimal_mono 0 1 80 1 (omega arith)) d.0,
    le_trans _ _ _ d.1 (decimal_mono 150 1 1000 1 (omega arith)),
  )
  load-Within running speed max_speed accel idle_load d =
      let (low, high) =
        clamp-Within o (decimal 50 1) (decimal 1000 1) _ (decimal_mono 50 1 1000 1 (omega arith)) in
      (le_trans _ _ _ (decimal_mono 0 1 50 1 (omega arith)) low, high)

  pub update_engine-IsWarm :
      (ignition_on : Bool) (motion : VehicleState) (speed max_speed accel idle_load : F)
      (e : EngineSystem F)
      → Within (decimal 80 1) (decimal 150 1) idle_load
      → IsWarm (update_engine ignition_on motion speed max_speed accel idle_load e)
  unfolding update_engine
  update_engine-IsWarm ignition_on motion speed max_speed accel idle_load e d = (
    clamp-Within o (decimal 250 1) (decimal 1050 1) _ (decimal_mono 250 1 1050 1 (omega arith)),
    load-Within (next_engine ignition_on motion speed e.state e.state_ticks).0 speed max_speed accel
        idle_load d,
  )

  supplied-IsCharged :
      (profile : VehicleProfile F) (d : PowerDraws F) (p : PowerSystem F)
      → IsPowerDraw profile d
      → IsCharged p
      → IsCharged (supplied profile d p)
  supplied-IsCharged profile d p (drains, charges, healthy) (low, high) =
      elim (Bool-cases p.main_power_ok) [
        | inl on ↦ elim (Bool-cases (lt p.volt (decimal 42000 1))) [
          | inl less ↦
              rw (on, less)
                (
                  fmin-greatest o _ _ _ (decimal_mono 35000 1 42000 1 (omega arith))
                      (le_trans _ _ _ low (add_grows p.volt d.charge charges)),
                  fmin-left o _ _,
                )
          | inr full ↦ rw (on, full) (low, high)
        ]
        | inr cut ↦ rw cut (
          fmax-left o _ _,
          fmax-least o _ _ _ (decimal_mono 35000 1 42000 1 (omega arith))
              (le_trans _ _ _ (sub_shrinks p.volt _ (mul_nonneg d.drain _ drains healthy)) high),
        )
      ]

  restored-IsCharged :
      (d : PowerDraws F) (p : PowerSystem F) → IsCharged p → IsCharged (restored d p)
  restored-IsCharged d p h = elim (Bool-cases (is_over (tick_down p.power_failure_ticks))) [
    | inl over ↦ rw over h
    | inr lasts ↦ rw lasts h
  ]

  pub update_power-IsCharged :
      (profile : VehicleProfile F) (state : VehicleState) (d : PowerDraws F) (p : PowerSystem F)
      → IsPowerDraw profile d
      → IsCharged p
      → IsCharged (update_power profile state d p)
  unfolding update_power
  update_power-IsCharged profile state d p ok h = elim (Bool-cases (is_failing state)) [
    | inl failing ↦
        rw failing (supplied-IsCharged profile d (restored d p) ok (restored-IsCharged d p h))
    | inr works ↦
        elim (Bool-cases (
          is_over (tick_down p.power_failure_cooldown) && lt d.chance profile.power_failure_prob)) [
            | inl fails ↦ rw (works, fails) h
            | inr lasts ↦
                rw (works, lasts)
                  (supplied-IsCharged profile d
                    (record p { power_failure_cooldown = tick_down p.power_failure_cooldown }) ok h)
          ]
  ]
