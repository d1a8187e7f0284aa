-- ===== src/Simulator/Drive.antt =====
-- The gears (app/services/simulator/physics/transmission.py), the revolutions (rpm.py), the inputs
-- (io.py), the running times (runtime.py) and the codes of the events (events.py).
use welogical_vehicle_tracki.Common.{
  ℕ, ◌-◌, String, Bool, true, false, not, ◌||◌, if◌then◌else◌, ℤ, pos, negsuc, List, [], ◌∷◌, eqb_ℤ,
}
use welogical_vehicle_tracki.Float.{Float, lt, fmax, fmin, eqf}
use welogical_vehicle_tracki.Simulator.Profile.{
  VehicleState, idle, driving, stopped_in_traffic, EngineState, off, starting, idling, running,
  stopping, is_halted, is_driving, is_parked,
}

pub data Gear : Type 0 where
  park neutral : Gear
  drive : ℕ → Gear

abbrev pub is_idling : EngineState → Bool
is_idling idling = true
is_idling _ = false

-- `max(0, rpm - 300)`
abbrev pub slowed : ℤ → ℤ
slowed (pos n) = pos (n - 300)
slowed (negsuc n) = pos 0

-- `motion_state_str in ("Idle", "Driving", "Stopped in Traffic")`
abbrev pub has_ignition : VehicleState → Bool
has_ignition idle = true
has_ignition driving = true
has_ignition stopped_in_traffic = true
has_ignition _ = false

pub record IoSystem : Type 0 where
  pub ignition : ℕ
  pub box : ℕ
  pub gpi : ℕ
  pub analog : List ℤ

pub record RuntimeTracker (F : Type 0) : Type 0 where
  pub engine_hours : F
  pub driving_hours : F
  pub idle_hours : F
  pub trip_runtime : F

pub record EventGenerator : Type 0 where
  pub last_ign : ℕ
  pub ign_transition_pending : Bool

module _ {F : Type 0} ⦃fl : Float F⦄ where
  open fl use {decimal, neg, add, mul, div, le, trunc}

  abbrev pub gear_for : F → F → Gear
  gear_for speed shift_offset =
      if lt speed (add (decimal 150 1) shift_offset)
      then drive 1
      else if lt speed (add (decimal 300 1) shift_offset)
      then drive 2
      else if lt speed (add (decimal 450 1) shift_offset)
      then drive 3
      else if lt speed (add (decimal 600 1) shift_offset)
      then drive 4
      else if lt speed (add (decimal 750 1) shift_offset)
      then drive 5
      else drive 6

  -- `TransmissionSystem.update`
  abbrev pub update_gear : EngineState → F → F → F → Gear
  update_gear off speed load accel = park
  update_gear starting speed load accel = neutral
  update_gear stopping speed load accel = neutral
  update_gear state speed load accel =
      let load_modifier = mul (div load (decimal 1000 1)) (decimal 80 1) in
      let accel_modifier = fmax (decimal 0 1) (mul accel (decimal 20 1)) in
      if eqf speed (decimal 0 1)
      then (if is_idling state then neutral else drive 1)
      else gear_for speed (add load_modifier accel_modifier)

  -- The revolutions in a gear.
  abbrev pub geared : ℕ → F → F → F → ℤ
  geared gear_num speed load accel =
      let base_ratio = div (decimal 1300 1) (decimal gear_num 0) in
      let rolling = add (decimal 10000 1) (mul speed base_ratio) in
      let loaded = add rolling (mul (div load (decimal 1000 1)) (decimal 8000 1)) in
      let target =
        add loaded
          (fmax (neg (decimal 2000 1)) (fmin (decimal 6000 1) (mul accel (decimal 1500 1)))) in
      trunc (fmax (decimal 8000 1) (fmin (decimal 55000 1) target))

  -- `RPMSystem.update`: `crank` and `idle_rpm` are the draws of the starter and of the idle engine.
  abbrev pub update_rpm : EngineState → Gear → F → F → F → ℤ → ℤ → ℤ → ℤ
  update_rpm off gear speed load accel crank idle_rpm rpm = pos 0
  update_rpm starting gear speed load accel crank idle_rpm rpm = crank
  update_rpm stopping gear speed load accel crank idle_rpm rpm = slowed rpm
  update_rpm idling gear speed load accel crank idle_rpm rpm = idle_rpm
  update_rpm running park speed load accel crank idle_rpm rpm = idle_rpm
  update_rpm running neutral speed load accel crank idle_rpm rpm = idle_rpm
  update_rpm running (drive n) speed load accel crank idle_rpm rpm = geared n speed load accel

  -- `IOSystem.update`
  abbrev pub update_io : VehicleState → F → IoSystem
  update_io state fuel_pct = record {
    ignition = if has_ignition state then 1 else 0;
    box = 0;
    gpi = 0;
    analog = pos 12100 ∷ pos 4800 ∷ trunc (mul fuel_pct (decimal 100 0)) ∷ [];
  }

  -- `RuntimeTracker.update`
  abbrev pub update_runtime : Bool → VehicleState → F → RuntimeTracker F → RuntimeTracker F
  update_runtime ignition_on state send_interval r =
      let hours = div send_interval (decimal 36000 1) in
      record {
        engine_hours = if ignition_on then add r.engine_hours hours else r.engine_hours;
        driving_hours = if is_driving state then add r.driving_hours hours else r.driving_hours;
        idle_hours = if is_halted state then add r.idle_hours hours else r.idle_hours;
        trip_runtime =
            if is_driving state
            then add r.trip_runtime send_interval
            else if is_parked state
            then decimal 0 1
            else r.trip_runtime;
      }

  -- `determine_txn`: the code, whether a transition of the power is still pending, and the generator.
  abbrev pub determine_txn : ℕ → Bool → F → EventGenerator → String × Bool × EventGenerator
  determine_txn current_ign power_pending speed g =
      let pending = g.ign_transition_pending || not (eqb_ℤ (pos g.last_ign) (pos current_ign)) in
      if power_pending
      then ("L", false, record { last_ign = current_ign; ign_transition_pending = pending })
      else if pending
      then ("J", false, record { last_ign = current_ign; ign_transition_pending = false })
      else (
        if lt (decimal 0 0) speed then "A" else "E",
        false,
        record { last_ign = current_ign; ign_transition_pending = false },
      )
