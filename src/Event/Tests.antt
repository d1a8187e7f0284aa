-- ===== src/Event/Tests.antt =====
-- The event engine on a vehicle whose ignition is turned on (app/services/event_engine.py).
use welogical_vehicle_tracki.Common.{
  ℕ, ◌*◌, ◌≡◌, refl, none, some, [], ◌∷◌, ◌++◌, arith, ℤ, pos, All,
}
use welogical_vehicle_tracki.Float.Fixed.{fixed_float}
use welogical_vehicle_tracki.Json.{int, obj, entry, empty}
use welogical_vehicle_tracki.Models.{Location, Event, DeviceConfig, Database, empty_database}
use welogical_vehicle_tracki.Settings.{secs}
use welogical_vehicle_tracki.Event.Engine.{process_telemetry}
use welogical_vehicle_tracki.Packet.{VtsPacket, text}
use welogical_vehicle_tracki.Event.Trigger.{fire}
use welogical_vehicle_tracki.Event.Decoder.{
  decode_and_save_event, firmware_trigger, hardware_trigger, firmware_alert,
}
use welogical_vehicle_tracki.Event.Decoded.{decode_and_save_event_again, hardware_after_firmware}
use welogical_vehicle_tracki.Event.Process.{process_telemetry_again}
use welogical_vehicle_tracki.Event.Spacing.{
  IsApart, process_telemetry-apart, process_telemetry-stored,
}

abbrev at : ℕ → ℕ → ℕ → Location ℤ
at second ign speed = record {
  id = 1;
  vehicle_id = 7;
  latitude = pos 10000000;
  longitude = pos 20000000;
  speed = pos (speed * 1000000);
  altitude = pos 0;
  timestamp = secs second;
  extra_data = some (entry "io" (obj (entry "ign" (int (pos ign)) empty)) empty);
}

-- The ignition was turned on 60 seconds before.
abbrev earlier : Event
earlier = record {
  id = 1;
  vehicle_id = 7;
  txn = "J";
  event_type = "Ignition On";
  description = "";
  severity = "Info";
  msgid = none;
  created_at = secs 40;
}

abbrev known : Database ℤ
known = record (empty_database ℤ) { events = record { rows = earlier ∷ []; next_id = 2 } }

process_telemetry_again_example :
    process_telemetry
      (process_telemetry known (some (at 90 0 0)) (at 100 1 30)).1
      (some (at 90 0 0))
      (at 100 1 30)
    ≡ ([], (process_telemetry known (some (at 90 0 0)) (at 100 1 30)).1)
process_telemetry_again_example =
    process_telemetry_again known (some (at 90 0 0)) (at 100 1 30) (λ _. omega arith, tt)

process_telemetry-apart_example :
    All
      (λ e. All (IsApart e) known.events.rows)
      (process_telemetry known (some (at 90 0 0)) (at 100 1 30)).0
process_telemetry-apart_example =
    process_telemetry-apart known (some (at 90 0 0)) (at 100 1 30) (λ _. omega arith, tt)

process_telemetry-stored_example :
    let out = process_telemetry known (some (at 90 0 0)) (at 100 1 30) in
    (out.1 ≡ record known { events = out.1.events })
    × (out.1.events.rows ≡ known.events.rows ++ out.0)
    × All (λ e. (e.vehicle_id ≡ 7) × (e.created_at ≡ secs 100)) out.0
process_telemetry-stored_example = process_telemetry-stored known (some (at 90 0 0)) (at 100 1 30)

-- A packet at 30 km/h whose firmware and hardware differ from the configuration.
abbrev packet : VtsPacket ℤ
packet = record {
  uid = text "T-7";
  info = record {
    dt = pos 100;
    txn = "A";
    msgkey = none;
    msgid = some (pos 12);
    cmdkey = none;
    cmdval = none;
  };
  gps = record {
    fix = "A";
    loc = (pos 10000000, pos 20000000);
    speed = pos 30000000;
    sat = none;
    alt = pos 0;
    dir = none;
    odo = none;
  };
  io = none;
  pwr = none;
  dbg = some (record { status = none; ver = some ("1.0" ∷ "A" ∷ []); lib = none });
  model_extra = empty;
}

abbrev versions_wanted : DeviceConfig ℤ
versions_wanted = record {
  id = 1;
  vehicle_id = 7;
  reporting_interval = none;
  speed_limit = some (pos 20000000);
  firmware_version = some "1.1";
  hardware_version = some "B";
}

abbrev configured : Database ℤ
configured = record (empty_database ℤ) {
  configs = record { rows = versions_wanted ∷ []; next_id = 2 };
}

decode_and_save_event_again_example :
    decode_and_save_event (secs 200) 7 packet (decode_and_save_event (secs 100) 7 packet configured)
    ≡ decode_and_save_event (secs 100) 7 packet configured
decode_and_save_event_again_example =
    decode_and_save_event_again (secs 100) (secs 200) 7 packet configured (pos 12) refl

hardware_after_firmware_example :
    fire
      (secs 100)
      7
      (hardware_trigger packet versions_wanted)
      (fire (secs 100) 7 (firmware_trigger packet versions_wanted) configured)
    ≡ fire (secs 100) 7 (firmware_trigger packet versions_wanted) configured
hardware_after_firmware_example =
    hardware_after_firmware (secs 100) 7 packet versions_wanted configured (pos 12)
      (firmware_alert (some (pos 12)) "1.0" "1.1") refl refl
