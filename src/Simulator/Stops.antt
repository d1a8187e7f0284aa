-- ===== src/Simulator/Stops.antt =====
-- An engine whose ignition stays off comes to a stop (app/services/simulator/physics/engine.py).
use welogical_vehicle_tracki.Common.{◌≡◌, refl, false, true, List, [], ◌∷◌, ℤ}
use welogical_vehicle_tracki.Float.{Float}
use welogical_vehicle_tracki.Simulator.Profile.{
  VehicleState, EngineState, off, starting, idling, running, stopping,
}
use welogical_vehicle_tracki.Simulator.Engine.{EngineSystem, tick_down, is_over, update_engine}

-- An engine that starts or stops does so within a tick.
abbrev pub IsShort : EngineState → ℤ → Type 0
IsShort starting ticks = is_over (tick_down ticks) ≡ true
IsShort stopping ticks = is_over (tick_down ticks) ≡ true
IsShort _ ticks = Unit

-- What an update reads besides the ignition.
pub record Tick (F : Type 0) : Type 0 where
  pub motion : VehicleState
  pub speed : F
  pub max_speed : F
  pub accel : F
  pub idle_load : F

module _ {F : Type 0} ⦃fl : Float F⦄ where
  open fl use {decimal}

  -- Updates with the ignition off.
  unfoldable pub switched_off : List (Tick F) → EngineSystem F → EngineSystem F
  switched_off [] e = e
  switched_off (t ∷ ticks) e =
      switched_off ticks (update_engine false t.motion t.speed t.max_speed t.accel t.idle_load e)

  stays_off :
      (ticks : List (Tick F)) (e : EngineSystem F)
      → e.state ≡ off
      → (switched_off ticks e).state ≡ off
  unfolding switched_off update_engine
  stays_off [] e h = h
  stays_off (t ∷ ticks) e h =
      stays_off ticks (update_engine false t.motion t.speed t.max_speed t.accel t.idle_load e)
        (rw h refl)

  stopping_stops :
      (t : Tick F) (ticks : List (Tick F)) (e : EngineSystem F)
      → e.state ≡ stopping
      → is_over (tick_down e.state_ticks) ≡ true
      → (switched_off (t ∷ ticks) e).state ≡ off
  unfolding switched_off update_engine
  stopping_stops t ticks e h over =
      stays_off ticks (update_engine false t.motion t.speed t.max_speed t.accel t.idle_load e)
        (rw (h, over) refl)

  idling_stops :
      (t u : Tick F) (ticks : List (Tick F)) (e : EngineSystem F)
      → e.state ≡ idling
      → (switched_off (t ∷ u ∷ ticks) e).state ≡ off
  unfolding switched_off update_engine
  idling_stops t u ticks e h =
      stopping_stops u ticks
        (update_engine false t.motion t.speed t.max_speed t.accel t.idle_load e) (rw h refl)
        (rw h refl)

  running_stops :
      (t u : Tick F) (ticks : List (Tick F)) (e : EngineSystem F)
      → e.state ≡ running
      → (switched_off (t ∷ u ∷ ticks) e).state ≡ off
  unfolding switched_off update_engine
  running_stops t u ticks e h =
      stopping_stops u ticks
        (update_engine false t.motion t.speed t.max_speed t.accel t.idle_load e) (rw h refl)
        (rw h refl)

  starting_stops :
      (t u w : Tick F) (ticks : List (Tick F)) (e : EngineSystem F)
      → e.state ≡ starting
      → is_over (tick_down e.state_ticks) ≡ true
      → (switched_off (t ∷ u ∷ w ∷ ticks) e).state ≡ off
  unfolding switched_off update_engine
  starting_stops t u w ticks e h over =
      idling_stops u w ticks
        (update_engine false t.motion t.speed t.max_speed t.accel t.idle_load e) (rw (h, over) refl)

  by_state :
      (s : EngineState) (t u w : Tick F) (ticks : List (Tick F)) (e : EngineSystem F)
      → e.state ≡ s
      → IsShort s e.state_ticks
      → (switched_off (t ∷ u ∷ w ∷ ticks) e).state ≡ off
  by_state off t u w ticks e h k = stays_off (t ∷ u ∷ w ∷ ticks) e h
  by_state starting t u w ticks e h k = starting_stops t u w ticks e h k
  by_state idling t u w ticks e h k = idling_stops t u (w ∷ ticks) e h
  by_state running t u w ticks e h k = running_stops t u (w ∷ ticks) e h
  by_state stopping t u w ticks e h k = stopping_stops t (u ∷ w ∷ ticks) e h k

  -- An engine whose ignition stays off for three updates or more is off after them, whatever its state,
  -- its motion and its speed, where a start or a stop that is under way has a tick left.
  pub switched_off-off :
      (t u w : Tick F) (ticks : List (Tick F)) (e : EngineSystem F)
      → IsShort e.state e.state_ticks
      → (switched_off (t ∷ u ∷ w ∷ ticks) e).state ≡ off
  switched_off-off t u w ticks e k = by_state e.state t u w ticks e refl k
