-- ===== src/Event/Engine.antt =====
-- The class `EventEngine` of app/services/event_engine.py: it runs the rules on two locations and
-- stores an event for each that fires, unless one of the same type was stored within 5 seconds. The
-- time difference is compared in whole microseconds. The events of a call are flushed at its end
-- (app/database.py: `autoflush=False`), so that no query sees those that the same call has added.
use Prim.Native.String.{◌++◌ as concat}
use welogical_vehicle_tracki.Common.{
  ℕ, ◌-◌, String, Bool, false, ◌&&◌, Option, none, some, List, [], ◌∷◌, ◌++◌, ltb, leb, ◌==◌,
  str_eq, if◌then◌else◌, select, greatest, Result, ok, err,
}
use welogical_vehicle_tracki.Float.{Float}
use welogical_vehicle_tracki.Models.{DateTime, Location, Event, Table, Database, insert}
use welogical_vehicle_tracki.Settings.{secs}
use welogical_vehicle_tracki.Event.Result.{
  EventRuleResult, Rule, ignition_on, ignition_off, vehicle_started, vehicle_stopped, overspeed,
  harsh_braking, harsh_acceleration, sharp_turn, power_failure, power_restored, low_battery,
  low_fuel, gps_lost, gps_restored, engine_over_temp, refueling_started, refueling_completed,
  maintenance_due,
}
use welogical_vehicle_tracki.Event.Rules.{evaluate}

-- `_load_default_rules`
abbrev pub default_rules : List Rule
default_rules =
    ignition_on ∷ ignition_off ∷ vehicle_started ∷ vehicle_stopped ∷ overspeed ∷ harsh_braking
    ∷ harsh_acceleration ∷ sharp_turn ∷ power_failure ∷ power_restored ∷ low_battery ∷ low_fuel
    ∷ gps_lost ∷ gps_restored ∷ engine_over_temp ∷ refueling_started ∷ refueling_completed
    ∷ maintenance_due ∷ []

-- The absolute difference of two times.
abbrev pub distance_of : DateTime → DateTime → ℕ
distance_of a b = if leb a b then b - a else a - b

abbrev pub is_near : DateTime → Option DateTime → Bool
is_near ts none = false
is_near ts (some last) = ltb (distance_of ts last) (secs 5)

abbrev pub is_event_of : ℕ → String → Event → Bool
is_event_of v event_type e = e.vehicle_id == v && str_eq e.event_type event_type

-- When the newest event of a vehicle and a type was stored.
unfoldable pub last_at : List Event → ℕ → String → Option DateTime
last_at events v event_type =
    greatest (λ (e : Event). e.created_at) (select (is_event_of v event_type) events)

-- `_is_duplicate`
abbrev pub is_duplicate : List Event → ℕ → String → DateTime → Bool
is_duplicate events v event_type ts = is_near ts (last_at events v event_type)

module _ {F : Type 0} where
  -- The event row of a rule's result.
  abbrev pub event_of : ℕ → Location F → EventRuleResult → Event
  event_of id curr_loc res = record {
    id = id;
    vehicle_id = curr_loc.vehicle_id;
    txn = res.txn;
    event_type = res.event_type;
    description = concat res.description (
        concat " (Previous: "
          (concat res.prev_val (concat " -> Current: " (concat res.curr_val ")"))));
    severity = res.severity;
    msgid = none;
    created_at = curr_loc.timestamp;
  }

  -- What the loop body does with the outcome of a rule, on the events and those created so far. The
  -- first argument is the events that are stored. An exception is logged.
  abbrev pub record_result :
      List Event
      → Location F
      → Result (Option EventRuleResult)
      → Table Event × List Event
      → Table Event × List Event
  record_result rows curr_loc (err e) (events, created) = (events, created)
  record_result rows curr_loc (ok none) (events, created) = (events, created)
  record_result rows curr_loc (ok (some res)) (events, created) =
      let event = event_of events.next_id curr_loc res in
      if is_duplicate rows curr_loc.vehicle_id res.event_type curr_loc.timestamp
      then (events, created)
      else (insert event events, created ++ (event ∷ []))

module _ {F : Type 0} ⦃fl : Float F⦄ where
  -- The loop over the rules.
  unfoldable pub run_rules :
      List Event
      → List Rule
      → Option (Location F)
      → Location F
      → Table Event × List Event
      → Table Event × List Event
  run_rules rows [] prev_loc curr_loc s = s
  run_rules rows (r ∷ rules) prev_loc curr_loc s =
      run_rules rows rules prev_loc curr_loc
        (record_result rows curr_loc (evaluate r prev_loc curr_loc) s)

  unfoldable pub process_telemetry :
      Database F → Option (Location F) → Location F → List Event × Database F
  unfolding run_rules
  process_telemetry db prev_loc curr_loc =
      let (events, created) =
        run_rules db.events.rows default_rules prev_loc curr_loc (db.events, []) in
      (created, record db { events = events })
