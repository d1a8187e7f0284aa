-- ===== src/Event/Trigger.antt =====
-- The event table of app/services/event_decoder.py: the transaction codes, and the storing of an event
-- with its protection against duplicates. `now` is the default of `created_at`.
use welogical_vehicle_tracki.Common.{
  ℕ, String, Bool, true, false, ◌&&◌, Option, none, some, List, [], ◌∷◌, ◌==◌, str_eq,
  if◌then◌else◌, find?, ℤ, eqb_ℤ,
}
use welogical_vehicle_tracki.Models.{DateTime, Event, Database, insert}

-- `TXN_EVENT_MAPPING`: event type, description and severity.
abbrev pub txn_event_mapping : List (String × (String × String × String))
txn_event_mapping =
    ("A", ("Vehicle Moving", "Vehicle in normal motion periodic transmission", "Info"))
    ∷ (
      "B",
      (
        "Overspeed", "Vehicle detected moving at higher speed than set limit periodic transmission",
        "Critical",
      ),
    )
    ∷ ("C", ("Speed Normal", "Vehicle speed returned below the configured threshold limit", "Info"))
    ∷ ("D", ("Speed Limit Exceeded", "Vehicle speed limit exceeded event alert", "Critical"))
    ∷ ("E", ("Vehicle Stopped", "Vehicle is at halt or not moving periodic transmission", "Info"))
    ∷ ("F", ("Motion Start", "Vehicle motion start event detected", "Info"))
    ∷ ("G", ("Motion Stop", "Vehicle motion stop event detected (speed goes to 0)", "Info"))
    ∷ ("J", ("Ignition Changed", "Vehicle ignition state transition detected", "Warning"))
    ∷ ("K", ("Device Open", "Device enclosure casing/box open tamper event detected", "Warning"))
    ∷ (
      "L",
      ("Power Changed", "External mains power connected or disconnected transit event", "Warning"),
    )
    ∷ ("M", ("Harsh Turn", "Vehicle experience a sharp harsh turn event", "Info"))
    ∷ ("N", ("SOS", "SOS emergency alarm button pressed on tracking hardware", "Critical"))
    ∷ (
      "O",
      ("Digital Input Changed", "Digital input GPIO pin logic level transition detected", "Info"),
    )
    ∷ ("P", ("Over Acceleration", "Vehicle acceleration rate exceeded safe thresholds", "Critical"))
    ∷ (
      "Q",
      (
        "Parameter Changed", "Device configuration setting parameter modification acknowledged",
        "Info",
      ),
    )
    ∷ ("R", ("Parameter Query", "Diagnostic query for parameter request processed", "Info"))
    ∷ (
      "S",
      (
        "Harsh Brake", "Vehicle experienced a deceleration force exceeding threshold limits",
        "Critical",
      ),
    )
    ∷ ("T", ("Immobilizer Event", "Immobilizer active state transition occurred", "Info"))
    ∷ (
      "U",
      ("GPS Status Event", "GPS satellite tracking or fix status transition occurred", "Info"),
    )
    ∷ (
      "V",
      (
        "Temperature Alert", "Analog temperature sensor threshold limit violation occurred",
        "Warning",
      ),
    )
    ∷ (
      "W",
      ("New ID Detected", "New identification tag scanned (RFID, Fingerprint, or iButton)", "Info"),
    )
    ∷ (
      "X",
      (
        "Geofence Event", "Vehicle entered or exited geofence boundary coordinate limits",
        "Warning",
      ),
    )
    ∷ ("Y", ("Trip Event", "Trip activation state button trigger event occurred", "Info"))
    ∷ ("Z", ("Firmware Update Event", "FOTA firmware override or upgrade process started", "Info"))
    ∷ []

-- `mapping.get(txn)`
unfoldable pub mapped :
    String → List (String × (String × String × String)) → Option (String × String × String)
mapped txn [] = none
mapped txn ((key, value) ∷ entries) =
    let rest = mapped txn entries in if str_eq key txn then some value else rest

-- The arguments of `trigger_system_event` but the database and the vehicle.
pub record Trigger : Type 0 where
  pub txn : String
  pub event_type : String
  pub description : String
  pub severity : String
  pub msgid : Option ℤ

abbrev pub same_msgid : ℤ → Option ℤ → Bool
same_msgid m none = false
same_msgid m (some n) = eqb_ℤ n m

-- A stored event with the uniqueness tuple.
abbrev pub is_stored : ℕ → String → ℤ → Event → Bool
is_stored v txn m e = e.vehicle_id == v && (str_eq e.txn txn && same_msgid m e.msgid)

abbrev pub triggered : ℕ → ℕ → Trigger → DateTime → Event
triggered id v t now = record {
  id = id;
  vehicle_id = v;
  txn = t.txn;
  event_type = t.event_type;
  description = t.description;
  severity = t.severity;
  msgid = t.msgid;
  created_at = now;
}

-- The message id, where there is one, has its event already.
abbrev pub is_known : Option Event → Bool
is_known none = false
is_known (some e) = true

abbrev pub is_repeated : List Event → ℕ → String → Option ℤ → Bool
is_repeated events v txn none = false
is_repeated events v txn (some m) = is_known (find? (is_stored v txn m) events)

module _ {F : Type 0} where
  unfoldable pub trigger_system_event :
      DateTime → ℕ → Trigger → Database F → Option Event × Database F
  trigger_system_event now v t db =
      let event = triggered db.events.next_id v t now in
      if is_repeated db.events.rows v t.txn t.msgid
      then (none, db)
      else (some event, record db { events = insert event db.events })

  -- A trigger under a condition, whose result is not read.
  abbrev pub fire : DateTime → ℕ → Option Trigger → Database F → Database F
  fire now v none db = db
  fire now v (some t) db = (trigger_system_event now v t db).1
