-- ===== src/Pipeline/Tests.antt =====
-- A packet that comes twice, and its processing (app/services/telemetry_pipeline.py,
-- app/services/packet_processor.py).
use welogical_vehicle_tracki.Common.{◌≡◌, refl, Bool, true, none, some, [], ◌∷◌, arith, ok, ℤ, pos}
use welogical_vehicle_tracki.Float.Fixed.{fixed_float, fixed_trig}
use welogical_vehicle_tracki.Json.{Json, Dict, int, obj, entry, empty}
use welogical_vehicle_tracki.Models.{
  Vehicle, DeviceCommand, VehicleRouteAssignment, Database, empty_database,
}
use welogical_vehicle_tracki.Settings.{Settings, defaults, secs}
use welogical_vehicle_tracki.Packet.{VtsPacket, text}
use welogical_vehicle_tracki.Packet.Validator.{validate_telemetry_packet, is_blank}
use welogical_vehicle_tracki.Pipeline.{run_synchronous_telemetry_pipeline, duplicate_ignored}
use welogical_vehicle_tracki.Pipeline.Resent.{run_synchronous_telemetry_pipeline_again}
use welogical_vehicle_tracki.Pipeline.Outcomes.{
  Ingested, run_synchronous_telemetry_pipeline-Ingested,
}
use welogical_vehicle_tracki.Pipeline.Context.{Context, State}
use welogical_vehicle_tracki.Pipeline.Processor.{process_telemetry_packet}
use welogical_vehicle_tracki.Pipeline.Sound.{process_telemetry_packet-IsSound}
use welogical_vehicle_tracki.Trip.Invariant.{IsSound}

abbrev car : Vehicle
car = record {
  id = 7;
  device_uid = "T-7";
  vehicle_name = "Car";
  vehicle_type = "Car";
  last_seen = none;
  status = "Enabled";
}

abbrev order : DeviceCommand
order = record {
  id = 3;
  vehicle_id = 7;
  command_type = "PRD";
  payload = some "30";
  status = "PENDING";
  created_at = secs 1600000000;
  sent_at = none;
  acknowledged_at = none;
  completed_at = none;
  response = none;
  error_message = none;
}

abbrev progress : Dict ℤ
progress =
    entry "route_progress"
      (obj (
        entry "current_point_index" (int (pos 9))
          (entry "last_coordinate_index" (int (pos 9)) empty)))
      empty

abbrev packet : VtsPacket ℤ
packet = record {
  uid = text "T-7";
  info = record {
    dt = pos 1700000000;
    txn = "A";
    msgkey = none;
    msgid = some (pos 12);
    cmdkey = none;
    cmdval = none;
  };
  gps = record {
    fix = "A";
    loc = (pos 10000000, pos 20000000);
    speed = pos 30000000;
    sat = none;
    alt = pos 0;
    dir = some (pos 90000000);
    odo = none;
  };
  io = none;
  pwr = none;
  dbg = none;
  model_extra = progress;
}

abbrev route : VehicleRouteAssignment ℤ
route = record {
  id = 1;
  vehicle_id = 7;
  route_id = 1;
  assigned_at = secs 1600000000;
  is_active = true;
  status = "ACTIVE";
  completed_at = none;
  current_point_index = int (pos 0);
  progress_percentage = int (pos 0);
  last_coordinate_index = int (pos 0);
}

abbrev garage : Database ℤ
garage = record (empty_database ℤ) {
  vehicles = record { rows = car ∷ []; next_id = 8 };
  commands = record { rows = order ∷ []; next_id = 4 };
  route_assignments = record { rows = route ∷ []; next_id = 2 };
}

-- An equality that finds any two values equal.
abbrev any_json : Json ℤ → Json ℤ → Bool
any_json x y = true

validated :
    (validate_telemetry_packet (secs 1700000060) packet ≡ ok (secs 1700000000))
    × (validate_telemetry_packet (secs 1700000090) packet ≡ ok (secs 1700000000))
unfolding validate_telemetry_packet is_blank
validated = (refl, refl)

run_synchronous_telemetry_pipeline_again_example :
    let first = run_synchronous_telemetry_pipeline any_json (secs 1700000060) packet garage in
    run_synchronous_telemetry_pipeline any_json (secs 1700000090) packet first.1
    ≡ (ok (duplicate_ignored, none), first.1)
run_synchronous_telemetry_pipeline_again_example =
    run_synchronous_telemetry_pipeline_again any_json (secs 1700000060) (secs 1700000090) packet
      (pos 12) (secs 1700000000) (secs 1700000000) garage (λ x. refl) refl validated.0 validated.1

run_synchronous_telemetry_pipeline-Ingested_example :
    Ingested
      (secs 1700000060)
      packet
      any_json
      garage
      (run_synchronous_telemetry_pipeline any_json (secs 1700000060) packet garage)
run_synchronous_telemetry_pipeline-Ingested_example =
    run_synchronous_telemetry_pipeline-Ingested (secs 1700000060) packet any_json garage

abbrev job : Context ℤ
job = record { vehicle_id = 7; packet = packet; timestamp = secs 1700000000; now = secs 1700000061 }

abbrev session : State ℤ
session = record { db = garage; sent = [] }

abbrev config : Settings ℤ
config = defaults

process_telemetry_packet-IsSound_example : IsSound (process_telemetry_packet config job session).db
process_telemetry_packet-IsSound_example =
    process_telemetry_packet-IsSound config job session
      (record { well_formed = tt; one_active = λ v. omega arith }) tt
